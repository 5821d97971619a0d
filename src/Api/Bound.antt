-- ===== src/Api/Bound.antt =====
-- dbrpc/bthread.cpp: raising the lower bound of the number of workers.
use mathlib.Core.Path.{subst}
use brpc_source_code_analysi.Prelude.{
  ℕ, ◌≡◌, ◌⊎◌, ◌≤◌, ◌<◌, refl, sym, ap, ◌∙◌, ◌-◌, ◌==◌, ltb, Bool, true, false, none, some, arith,
  inl, inr, Bool-cases, Option-cases, ◌+◌,
}
use brpc_source_code_analysi.Control.Workers.{Workers, add_workers}
use brpc_source_code_analysi.Api.Resize.{IsConsistent}
use brpc_source_code_analysi.Control.Growth.{successes, add_workers-effect}
use brpc_source_code_analysi.Api.Concurrency.{Process, grow_to, validate_bthread_min_concurrency}

-- How a value of the lower bound is taken: there is none; it is refused; there is no control to have
-- workers; there are enough; or workers are added, and it is accepted when there are enough then.
pub data Validated (min : ℕ) (creates : ℕ → Bool) (val : ℕ) (s : Process)
    : Process × Bool → Type 0 where
  no_bound : val ≡ 0 → Validated min creates val s (s, true)
  out_of_bounds :
      0 < val
      → ((val < min) ⊎ (s.bthread_concurrency < val))
      → Validated min creates val s (s, false)
  no_control :
      0 < val
      → min ≤ val
      → val ≤ s.bthread_concurrency
      → s.task_control ≡ none
      → Validated min creates val s (s, true)
  has_enough :
      (c : Workers)
      → 0 < val
      → min ≤ val
      → val ≤ s.bthread_concurrency
      → s.task_control ≡ some c
      → val ≤ c.concurrency
      → Validated min creates val s (s, true)
  grows :
      (c c' : Workers)
      → 0 < val
      → min ≤ val
      → val ≤ s.bthread_concurrency
      → s.task_control ≡ some c
      → c'.concurrency ≡ c.concurrency + successes creates (val - c.concurrency) c.concurrency
      → c'.num_workers ≡ c'.concurrency
      → Validated min creates val s (record s { task_control = some c' }, c'.concurrency == val)

within-Validated :
    (min : ℕ) (creates : ℕ → Bool) (val : ℕ) (c : Workers) (s : Process)
    → 0 < val
    → min ≤ val
    → val ≤ s.bthread_concurrency
    → s.task_control ≡ some c
    → c.num_workers ≡ c.concurrency
    → Validated min creates val s (grow_to creates true val c s)
unfolding grow_to
within-Validated min creates val c s positive low high has consistent =
    let grown = (add_workers creates true (val - c.concurrency) c).0 in
    let (added, few, concurrency, sized) =
      add_workers-effect creates (val - c.concurrency) c consistent in
    elim (Bool-cases (ltb c.concurrency val)) [
      | inl fewer ↦
          subst (Validated min creates val s)
            {x = (record s { task_control = some grown }, grown.concurrency == val)}
            (ground (arith, fewer, few, concurrency))
            (grows c grown positive low high has
              (concurrency ∙ ap (λ (k : ℕ). c.concurrency + k) added) sized)
      | inr enough ↦
          subst (Validated min creates val s) {x = (s, true)} (ground (arith, enough))
            (has_enough c positive low high has (ground (arith, enough)))
    ]

validate-without_control :
    (min : ℕ) (creates : ℕ → Bool) (val : ℕ) (s : Process)
    → 0 < val
    → min ≤ val
    → val ≤ s.bthread_concurrency
    → s.task_control ≡ none
    → validate_bthread_min_concurrency min creates true val s ≡ (s, true)
unfolding validate_bthread_min_concurrency
validate-without_control min creates val s positive low high absent =
    ground (arith, positive, low, high, absent)

validate-grow_to :
    (min : ℕ) (creates : ℕ → Bool) (val : ℕ) (c : Workers) (s : Process)
    → 0 < val
    → min ≤ val
    → val ≤ s.bthread_concurrency
    → s.task_control ≡ some c
    → validate_bthread_min_concurrency min creates true val s ≡ grow_to creates true val c s
unfolding validate_bthread_min_concurrency
validate-grow_to min creates val c s positive low high has =
    ground (arith, positive, low, high, has)

validate-refused :
    (min : ℕ) (creates : ℕ → Bool) (val : ℕ) (s : Process)
    → 0 < val
    → ((val < min) ⊎ (s.bthread_concurrency < val))
    → validate_bthread_min_concurrency min creates true val s ≡ (s, false)
unfolding validate_bthread_min_concurrency
validate-refused min creates val s positive out = ground (arith, positive, out)

validate-none :
    (min : ℕ) (creates : ℕ → Bool) (s : Process)
    → validate_bthread_min_concurrency min creates true 0 s ≡ (s, true)
unfolding validate_bthread_min_concurrency
validate-none min creates s = refl

bound_cases :
    (min flag val : ℕ)
    → (val ≡ 0)
      ⊎ ((0 < val) × ((val < min) ⊎ (flag < val)))
      ⊎ ((0 < val) × (min ≤ val) × (val ≤ flag))
bound_cases min flag val = ground arith

-- A lower bound of 0 is accepted and changes nothing. Another one is refused and changes nothing when
-- it is below the least number or above the flag. Within the bounds it is accepted without a control,
-- which has no workers then, and with enough workers; with fewer, workers are added as far as their
-- threads can be created, and it is accepted when they are as many as the bound then. The control's
-- array of workers is as long as its number of workers.
pub validate_bthread_min_concurrency-effect :
    (min : ℕ) (creates : ℕ → Bool) (val : ℕ) (s : Process)
    → IsConsistent s
    → Validated min creates val s (validate_bthread_min_concurrency min creates true val s)
validate_bthread_min_concurrency-effect min creates val s consistent =
    elim (bound_cases min s.bthread_concurrency val) [
      | inl none_asked ↦
          subst
            (λ (v : ℕ).
              Validated min creates v s (validate_bthread_min_concurrency min creates true v s))
            (sym none_asked)
            (subst (Validated min creates 0 s) (sym (validate-none min creates s)) (no_bound refl))
      | inr (inl (positive, out)) ↦
          subst (Validated min creates val s)
            (sym (validate-refused min creates val s positive out)) (out_of_bounds positive out)
      | inr (inr (positive, low, high)) ↦ elim (Option-cases s.task_control) [
        | inl absent ↦
            subst (Validated min creates val s)
              (sym (validate-without_control min creates val s positive low high absent))
              (no_control positive low high absent)
        | inr (c, has) ↦
            subst (Validated min creates val s)
              (sym (validate-grow_to min creates val c s positive low high has))
              (within-Validated min creates val c s positive low high has (consistent c has))
      ]
    ]
