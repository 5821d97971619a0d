-- ===== src/Control/Registry.antt =====
-- dbrpc/task_control.h: the groups that a control serves, whatever their order in the table.
use mathlib.Core.Path.{subst}
use mathlib.Core.Quot
use mathlib.Core.Quot.{Quot, Quot-set}
use native.Mathlib.Nat.{ℕ_set}
use brpc_source_code_analysi.Prelude.{
  ℕ, suc, ◌≡◌, refl, ◌<◌, ◌==◌, if◌then◌else◌, ltb, Bool, true, List, [], ◌∷◌, length, count,
  remove, count-remove_self, count-remove_other, arith, ==_refl, ==_eq, Bool-cases, inl, inr,
}
use brpc_source_code_analysi.Control.Groups.{Effect, signal_task, schedule_delete}

-- Two tables that list the same groups.
abbrev pub SameMembers : (table other : List ℕ) → Type 0
SameMembers table other = (g : ℕ) → count g table ≡ count g other

abbrev pub Members : Type 0
Members = Quot SameMembers

abbrev pub members_of : (table : List ℕ) → Members
members_of table = Quot.mk table

pub remove-SameMembers :
    (x : ℕ) (xs ys : List ℕ) → SameMembers xs ys → SameMembers (remove x xs) (remove x ys)
remove-SameMembers x xs ys h a = elim (Bool-cases (x == a)) [
  | inl it ↦
      subst (λ (k : ℕ). count k (remove x xs) ≡ count k (remove x ys)) (==_eq x a it)
        (omega (arith, count-remove_self x xs, count-remove_self x ys, h x))
  | inr other ↦ omega (arith, count-remove_other x a xs other, count-remove_other x a ys other, h a)
]

length-remove : (x : ℕ) (ys : List ℕ) → 0 < count x ys → suc (length (remove x ys)) ≡ length ys
length-remove x [] h = absurd (omega arith)
length-remove x (y ∷ ys) h = ground (arith, length-remove x ys)

SameMembers-nil : (ys : List ℕ) → SameMembers [] ys → ys ≡ []
SameMembers-nil [] h = refl
SameMembers-nil (y ∷ ys) h = absurd (ground (arith, h y, ==_refl y))

pub length-SameMembers : (xs ys : List ℕ) → SameMembers xs ys → length xs ≡ length ys
length-SameMembers [] ys h = rw (SameMembers-nil ys h) refl
length-SameMembers (x ∷ xs) ys h =
    let fewer : SameMembers xs (remove x ys) =
      λ a. ground (arith, remove-SameMembers x (x ∷ xs) ys h a, ==_refl x) in
    ground (arith, length-SameMembers xs (remove x ys) fewer, length-remove x ys, h x, ==_refl x)

unfoldable pub amount : ℕ → Members → ℕ
amount a = Quot.lift ℕ_set (count a) (λ xs ys h. h a)

unfoldable pub size : Members → ℕ
size = Quot.lift ℕ_set length length-SameMembers

pub cons-SameMembers :
    (g : ℕ) (table other : List ℕ) → SameMembers table other → SameMembers (g ∷ table) (g ∷ other)
cons-SameMembers g table other h a = ground (arith, h a)

unfoldable pub put : ℕ → Members → Members
put x =
    Quot.lift Quot-set (λ xs. Quot.mk (x ∷ xs)) (λ xs ys h. Quot.sound (cons-SameMembers x xs ys h))

unfoldable pub take_out : ℕ → Members → Members
take_out x =
    Quot.lift Quot-set (λ xs. Quot.mk (remove x xs))
      (λ xs ys h. Quot.sound (remove-SameMembers x xs ys h))

-- The groups, whether the control is stopped, and what was asked of the rest of the program so far,
-- newest first.
pub record Registry : Type 0 where
  pub members : Members
  pub stopped : Bool
  pub asked : List Effect

pub data Operation : Type 0 where
  adds deletes : (group : ℕ) → Operation
  stops : Operation

abbrev pub put_within : ℕ → ℕ → Members → Members
put_within limit g b = if ltb (size b) limit then put g b else b

abbrev pub specified : ℕ → Operation → Registry → Registry
specified limit (adds g) r =
    if r.stopped
    then r
    else record r { members = put_within limit g r.members; asked = signal_task 65536 ∷ r.asked }
specified limit (deletes g) r =
    if ltb 0 (amount g r.members)
    then record r { members = take_out g r.members; asked = schedule_delete g ∷ r.asked }
    else r
specified limit stops r = record r { members = members_of []; stopped = true }

abbrev pub all_specified : ℕ → List Operation → Registry → Registry
all_specified limit [] r = r
all_specified limit (op ∷ ops) r = all_specified limit ops (specified limit op r)
