-- ===== src/Control/Coverage.antt =====
-- dbrpc/task_control.cpp: which slots the loop of `steal_task` visits.
--
-- The offsets come from a table of primes that is generated outside the repository. What the loop
-- relies on is that the offset has an inverse modulo the number of groups.
use native.Mathlib.Nat.{
  mod-lt, add-mod-mod, add-mul-mod_self_right, add-mod, mod-add-div', mod-eq_of_lt, add-mod_right,
}
use brpc_source_code_analysi.Prelude.{ℕ, ◌≡◌, sym, ap, ◌∙◌, ◌+◌, ◌-◌, ◌*◌, ◌/◌, ◌%◌, ◌<◌, arith}

mul-mod_left : (a b n : ℕ) → ((a % n) * b) % n ≡ (a * b) % n
mul-mod_left a b n =
    sym (add-mul-mod_self_right ((a % n) * b) ((a / n) * b) n)
    ∙ ap (λ (k : ℕ). k % n) (omega (arith, ap (λ (t : ℕ). t * b) (mod-add-div' a n)))

times-offset :
    (n d offset inv : ℕ) → (offset * inv) % n ≡ 1 % n → (((d * inv) % n) * offset) % n ≡ d % n
times-offset n d offset inv h =
    mul-mod_left (d * inv) offset n
    ∙ ap (λ (k : ℕ). k % n) (omega arith)
    ∙ sym (mul-mod_left (offset * inv) d n)
    ∙ ap (λ (k : ℕ). (k * d) % n) h
    ∙ mul-mod_left 1 d n
    ∙ ap (λ (k : ℕ). k % n) (omega arith)

-- With an inverse of the offset, each slot is visited in one of the first `n` rounds.
pub visits_every_slot :
    (n s offset inv j : ℕ)
    → (offset * inv) % n ≡ 1 % n
    → j < n
    → (i : ℕ) × (i < n) × ((s + i * offset) % n ≡ j)
visits_every_slot n s offset inv j h lt =
    let d = j + n - s % n in
    let i = (d * inv) % n in
    let small : s % n < n = mod-lt s (omega (arith, lt)) in
    (
      i,
      mod-lt (d * inv) (omega (arith, lt)),
      add-mod s (i * offset) n
          ∙ ap (λ (k : ℕ). (s % n + k) % n) (times-offset n d offset inv h)
          ∙ add-mod-mod (s % n) d n
          ∙ ap (λ (k : ℕ). k % n) (omega (arith, small))
          ∙ add-mod_right j n
          ∙ mod-eq_of_lt lt,
    )
