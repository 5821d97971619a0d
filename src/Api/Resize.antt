-- ===== src/Api/Resize.antt =====
-- dbrpc/bthread.cpp: what setting the concurrency does to the workers.
use mathlib.Core.Path.{subst}
use brpc_source_code_analysi.Prelude.{
  ℕ, ◌≡◌, ◌⊎◌, ◌≤◌, ◌<◌, refl, sym, ap, ◌∙◌, ◌+◌, ◌-◌, Bool, true, some, arith, inl, inr, lt→ltb,
}
use brpc_source_code_analysi.Control.Workers.{Workers, add_workers}
use brpc_source_code_analysi.Control.Growth.{successes, add_workers-effect}
use brpc_source_code_analysi.Api.Concurrency.{
  Process, Code, ok, eperm, sync_flag, resize_synced, resize_locked, set_locked,
  bthread_setconcurrency,
}

-- The control's array of workers is as long as its number of workers.
abbrev pub IsConsistent : Process → Type 0
IsConsistent s = (c : Workers) → s.task_control ≡ some c → c.num_workers ≡ c.concurrency

compare_cases : (a b : ℕ) → (a < b) ⊎ (a ≡ b) ⊎ (b < a)
compare_cases a b = ground arith

-- The workers after growing to `num`, as `add_workers` leaves them.
grown : (creates : ℕ → Bool) → ℕ → Workers → Workers
grown creates num c = (add_workers creates true (num - c.concurrency) c).0

sync_flag-synced : (c : Workers) (s : Process) → (sync_flag c s).bthread_concurrency ≡ c.concurrency
unfolding sync_flag
sync_flag-synced c s = ground arith

-- What the process is after the flag was in step and the number was larger.
Resized : (creates : ℕ → Bool) → ℕ → Workers → Process × Code → Type 0
Resized creates num c (s', code) =
    (code ≡ ok)
    × (s'.task_control ≡ some (grown creates num c))
    × (s'.bthread_concurrency
        ≡ c.concurrency + (add_workers creates true (num - c.concurrency) c).1)

resize_synced-Resized :
    (creates : ℕ → Bool) (num : ℕ) (c : Workers) (s : Process) (n : ℕ)
    → s.bthread_concurrency ≡ n
    → n ≡ c.concurrency
    → n < num
    → Resized creates num c (resize_synced creates true num c s)
unfolding resize_synced grown Resized
resize_synced-Resized creates num c s n e e' lt =
    let k : num - s.bthread_concurrency ≡ num - c.concurrency = omega (arith, e, e') in
    let larger = lt→ltb s.bthread_concurrency num (omega (arith, e, lt)) in
    rw (larger, k) (refl, refl, omega (arith, e, e'))

module _ (min max : ℕ) (creates : ℕ → Bool) (num : ℕ) (c : Workers) (s : Process) (low : min ≤ num)
    (high : num ≤ max) (lazy : s.bthread_min_concurrency ≡ 0) (has : s.task_control ≡ some c) where
  abbrev outcome : Process × Code
  outcome = bthread_setconcurrency min max creates true (λ q. q) num s

  shrinking : num < c.concurrency → outcome ≡ (s, eperm)
  unfolding bthread_setconcurrency
  shrinking lt = ground (arith, low, high, lazy, has, lt)

  keeping : num ≡ c.concurrency → outcome ≡ (s, ok)
  unfolding bthread_setconcurrency
  keeping e = ground (arith, low, high, lazy, has, e)

  growing : c.concurrency < num → outcome ≡ resize_locked creates true num c s
  unfolding bthread_setconcurrency set_locked
  growing lt = ground (arith, low, high, lazy, has, lt)

  growing-Resized : c.concurrency < num → Resized creates num c outcome
  unfolding resize_locked
  growing-Resized lt =
      subst (λ r. Resized creates num c r) (sym (growing lt))
        (resize_synced-Resized creates num c (sync_flag c s) c.concurrency (sync_flag-synced c s)
          refl lt)

-- With a control, no lower bound and no other thread, `bthread_setconcurrency` of a number within
-- the bounds refuses to shrink and changes nothing then; it grows the workers by the threads that
-- could be created, sets the flag to the number of workers that there are, and answers 0 also when
-- they are fewer than asked for.
pub bthread_setconcurrency-effect :
    (min max : ℕ) (creates : ℕ → Bool) (num : ℕ) (c : Workers) (s : Process)
    → min ≤ num
    → num ≤ max
    → s.bthread_min_concurrency ≡ 0
    → s.task_control ≡ some c
    → c.num_workers ≡ c.concurrency
    → let (s', code) = bthread_setconcurrency min max creates true (λ q. q) num s in
      ((num < c.concurrency) × (s' ≡ s) × (code ≡ eperm))
      ⊎ ((num ≡ c.concurrency) × (s' ≡ s) × (code ≡ ok))
      ⊎ ((c.concurrency < num)
          × (code ≡ ok)
          × (c' : Workers) × (s'.task_control ≡ some c')
          × (c'.concurrency ≡ c.concurrency + successes creates (num - c.concurrency) c.concurrency)
          × (c'.num_workers ≡ c'.concurrency)
          × (s'.bthread_concurrency ≡ c'.concurrency)
          × (c'.concurrency ≤ num))
unfolding Resized grown
bthread_setconcurrency-effect min max creates num c s low high lazy has consistent =
    elim (compare_cases num c.concurrency) [
      | inl lt ↦
          let e = shrinking min max creates num c s low high lazy has lt in
          inl (lt, ap (λ r. r.0) e, ap (λ r. r.1) e)
      | inr (inl eq) ↦
          let e = keeping min max creates num c s low high lazy has eq in
          inr (inl (eq, ap (λ r. r.0) e, ap (λ r. r.1) e))
      | inr (inr gt) ↦
          let (code, control, flag) =
            growing-Resized min max creates num c s low high lazy has gt in
          let (added, few, concurrency, sized) =
            add_workers-effect creates (num - c.concurrency) c consistent in
          inr (
            inr (
              gt,
              code,
              grown creates num c,
              control,
              concurrency ∙ ap (λ k. c.concurrency + k) added,
              sized,
              flag ∙ sym concurrency,
              omega (arith, concurrency, few, gt),
            ))
    ]
