-- ===== src/Control/Announce.antt =====
-- dbrpc/task_control.cpp: how many workers `signal_task` wakes.
use brpc_source_code_analysi.Prelude.{
  ◌⊎◌, false, ℕ, zero, suc, ◌≡◌, refl, ◌+◌, ◌-◌, ◌≤◌, ◌<◌, List, [], ◌∷◌, arith, length, count,
}
use brpc_source_code_analysi.Control.Signal.{
  parking_lot_num, signal_rest, signal_lots, capped, next_lot, Flags, signal_task,
}

-- `signal(1)` wakes at most one worker.
abbrev pub WakesOne : (ℕ → ℕ) → Type 0
WakesOne woken = (i : ℕ) → woken i ≤ 1

abbrev pub total_woken : (ℕ → ℕ) → List ℕ → ℕ
total_woken woken [] = 0
total_woken woken (i ∷ lots) = woken i + total_woken woken lots

-- What is announced and what is left add up, and something is left only if every lot was tried.
signal_rest-total :
    (woken : ℕ → ℕ) (left start n : ℕ)
    → WakesOne woken
    → (total_woken woken (signal_rest woken left start n).lots
          + (signal_rest woken left start n).num_task
        ≡ n)
      × (length (signal_rest woken left start n).lots ≤ left)
      × (0 < (signal_rest woken left start n).num_task
          → length (signal_rest woken left start n).lots ≡ left)
unfolding signal_rest
signal_rest-total woken zero start n h = (omega arith, omega arith, λ k. refl)
signal_rest-total woken (suc left) start n h = ground (
  arith,
  h (next_lot start),
  signal_rest-total woken left (next_lot start) (n - woken (next_lot start)) h,
)

signal_lots-total :
    (woken : ℕ → ℕ) (start n : ℕ)
    → WakesOne woken
    → 0 < n
    → (total_woken woken (signal_lots woken start n).lots + (signal_lots woken start n).num_task
        ≡ n)
      × (length (signal_lots woken start n).lots ≤ parking_lot_num)
      × (0 < (signal_lots woken start n).num_task
          → length (signal_lots woken start n).lots ≡ parking_lot_num)
unfolding signal_lots
signal_lots-total woken start n h pos =
    let r = signal_rest-total woken 3 start (n - woken start) h in ground (arith, r, h start)

-- No lot is signalled twice, and each is signalled when something is left.
signal_lots-each :
    (woken : ℕ → ℕ) (start n i : ℕ)
    → start < parking_lot_num
    → i < parking_lot_num
    → (count i (signal_lots woken start n).lots ≤ 1)
      × (0 < (signal_lots woken start n).num_task → count i (signal_lots woken start n).lots ≡ 1)
unfolding signal_lots signal_rest
signal_lots-each woken start n i s_lt i_lt = ground (arith, s_lt, i_lt)

-- `signal_task` wakes at most two workers, and no more than there are tasks. It wakes two, or one for
-- the one task, or it has signalled every parking lot once; it never signals a lot twice. It adds a
-- worker only after the latter, with room under the flag. The number of tasks is not 0, the first lot
-- is one of the four, and a parking lot wakes at most one worker for each signal.
pub signal_task-effect :
    (woken : ℕ → ℕ) (flags : Flags) (seen locked start n i : ℕ)
    → WakesOne woken
    → 0 < n
    → start < parking_lot_num
    → i < parking_lot_num
    → let (lots, adds) = signal_task woken flags seen locked start n in
      (total_woken woken lots ≤ 2)
      × (total_woken woken lots ≤ n)
      × (count i lots ≤ 1)
      × ((total_woken woken lots ≡ 2) ⊎ (total_woken woken lots ≡ n) ⊎ (count i lots ≡ 1))
      × ((adds ≡ false)
          ⊎ ((total_woken woken lots < 2)
              × (total_woken woken lots < n)
              × (count i lots ≡ 1)
              × (0 < flags.bthread_min_concurrency)
              × (locked < flags.bthread_concurrency)))
unfolding signal_task
signal_task-effect woken flags seen locked start n i h pos s_lt i_lt =
    let t = signal_lots-total woken start (capped n) h (ground arith) in
    let e = signal_lots-each woken start (capped n) i s_lt i_lt in ground (arith, t, e)
