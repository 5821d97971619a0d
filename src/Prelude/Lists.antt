-- ===== src/Prelude/Lists.antt =====
-- Lists measured by native numbers, occurrences, and memory as a function of the address.
use Prim.Native.Nat.{ℕ, zero, suc, ◌+◌, ◌-◌, ◌≤◌, ◌<◌}
use mathlib.Core.Logic.{inl, inr}
use mathlib.Core.Path.{◌≡◌, refl, ap}
use mathlib.Core.Bool.{false}
use mathlib.Core.List.{List, [], ◌∷◌, ◌++◌, reverse, reverse-cons}
use native.Mathlib.Omega.{arith}
use brpc_source_code_analysi.Prelude.Tests.{Bool-cases, ◌==◌, if◌then◌else◌}

module _ {ℓ} {A : Type ℓ} where
  abbrev pub length : List A → ℕ
  length [] = 0
  length (x ∷ xs) = suc (length xs)

  pub length-append : (xs ys : List A) → length (xs ++ ys) ≡ length xs + length ys
  length-append [] ys = omega arith
  length-append (x ∷ xs) ys = omega (arith, length-append xs ys)

  pub length-reverse : (xs : List A) → length (reverse xs) ≡ length xs
  length-reverse [] = refl
  length-reverse (x ∷ xs) =
      omega (
        arith,
        length-reverse xs,
        length-append (reverse xs) (x ∷ []),
        ap length (reverse-cons x xs),
      )

-- What is stored at each address, after one store.
abbrev pub update {ℓ} : {A : Type ℓ} → (ℕ → A) → ℕ → A → ℕ → A
update f i a j = if i == j then a else f j

-- How often an address stands in a list.
abbrev pub count : ℕ → List ℕ → ℕ
count a [] = 0
count a (x ∷ xs) = if x == a then suc (count a xs) else count a xs

pub count-append :
    (item : ℕ) (front back : List ℕ)
    → count item (front ++ back) ≡ count item front + count item back
count-append item [] back = omega arith
count-append item (x ∷ front) back = ground (arith, count-append item front back)

pub count-reverse : (a : ℕ) (xs : List ℕ) → count a (reverse xs) ≡ count a xs
count-reverse a [] = refl
count-reverse a (x ∷ xs) = ground (
  arith,
  ap (count a) (reverse-cons x xs),
  count-append a (reverse xs) (x ∷ []),
  count-reverse a xs,
)

-- The first occurrence taken out: what unlinking a node does to the list that holds it.
abbrev pub remove : ℕ → List ℕ → List ℕ
remove a [] = []
remove a (x ∷ xs) = if x == a then xs else x ∷ remove a xs

pub count-remove_self : (a : ℕ) (xs : List ℕ) → count a (remove a xs) ≡ count a xs - 1
count-remove_self a [] = omega arith
count-remove_self a (x ∷ xs) = ground (arith, count-remove_self a xs)

pub count-remove_other :
    (a b : ℕ) (xs : List ℕ) → (a == b) ≡ false → count b (remove a xs) ≡ count b xs
count-remove_other a b [] h = refl
count-remove_other a b (x ∷ xs) h = ground (arith, count-remove_other a b xs h)

-- A sum over the first `n` slots of an array.
abbrev pub tally : (ℕ → ℕ) → ℕ → ℕ
tally v zero = 0
tally v (suc n) = tally v n + v n

pub tally-above :
    {A : Type 0} (v : A → ℕ) (f : ℕ → A) (i : ℕ) (a : A) (n : ℕ)
    → n ≤ i
    → tally (λ j. v (update f i a j)) n ≡ tally (λ j. v (f j)) n
tally-above v f i a zero h = refl
tally-above v f i a (suc n) h = ground (arith, tally-above v f i a n)

pub tally-update :
    {A : Type 0} (v : A → ℕ) (f : ℕ → A) (i : ℕ) (a : A) (n : ℕ)
    → i < n
    → tally (λ j. v (update f i a j)) n + v (f i) ≡ tally (λ j. v (f j)) n + v a
tally-update v f i a zero h = absurd (omega arith)
tally-update v f i a (suc n) h = elim (Bool-cases (i == n)) [
  | inl last ↦ ground (arith, last, tally-above v f i a n)
  | inr below ↦ ground (arith, below, tally-update v f i a n)
]

pub le-tally : (v : ℕ → ℕ) (i n : ℕ) → i < n → v i ≤ tally v n
le-tally v i zero h = absurd (omega arith)
le-tally v i (suc n) h = elim (Bool-cases (i == n)) [
  | inl last ↦ ground (arith, last)
  | inr below ↦ ground (arith, below, le-tally v i n)
]

pub tally-eq-zero : (v : ℕ → ℕ) (n : ℕ) → ((i : ℕ) → i < n → v i ≡ 0) → tally v n ≡ 0
tally-eq-zero v zero h = refl
tally-eq-zero v (suc n) h =
    omega (arith, tally-eq-zero v n (λ i lt. h i (omega arith)), h n (omega arith))
