-- ===== src/Control/Growth.antt =====
-- dbrpc/task_control.cpp: what `add_workers` counts.
use brpc_source_code_analysi.Prelude.{ℕ, zero, suc, ◌≡◌, ◌+◌, ◌≤◌, if◌then◌else◌, Bool, true, arith}
use brpc_source_code_analysi.Control.Workers.{Workers, add_loop, add_workers}

-- How many of the calls `creates i`, `creates (i + 1)`, … succeed before the first that fails.
pub successes : (creates : ℕ → Bool) → ℕ → ℕ → ℕ
successes creates zero i = 0
successes creates (suc left) i =
    let more = suc (successes creates left (suc i)) in if creates i then more else 0

successes-le : (creates : ℕ → Bool) (left i : ℕ) → successes creates left i ≤ left
unfolding successes
successes-le creates zero i = omega arith
successes-le creates (suc left) i = ground (arith, successes-le creates left (suc i))

add_loop-concurrency :
    (creates : ℕ → Bool) (left i : ℕ) (w : Workers)
    → (add_loop creates left i w).concurrency ≡ w.concurrency + successes creates left i
unfolding add_loop successes
add_loop-concurrency creates zero i w = omega arith
add_loop-concurrency creates (suc left) i w = ground (
  arith,
  add_loop-concurrency creates left (suc i) (record w { concurrency = w.concurrency + 1 }),
)

-- `add_workers` answers the number of threads that were created before the first failure, by which
-- `_concurrency` has grown; afterwards `_workers` is as long as `_concurrency` says.
pub add_workers-effect :
    (creates : ℕ → Bool) (num : ℕ) (w : Workers)
    → w.num_workers ≡ w.concurrency
    → let (w', added) = add_workers creates true num w in
      (added ≡ successes creates num w.concurrency)
      × (added ≤ num)
      × (w'.concurrency ≡ w.concurrency + added)
      × (w'.num_workers ≡ w'.concurrency)
unfolding add_workers successes
add_workers-effect creates num w h = ground (
  arith,
  successes-le creates num w.concurrency,
  add_loop-concurrency creates num w.concurrency (record w { num_workers = w.concurrency + num }),
)
