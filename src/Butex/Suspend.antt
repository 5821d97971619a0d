-- ===== src/Butex/Suspend.antt =====
-- dbrpc/butex.cpp: the outcomes of `wait_for_butex`.

use brpc_source_code_analysi.Prelude.{
  ℕ, ◌≡◌, ap, ◌≤◌, ◌<◌, ◌==◌, ◌&&◌, Bool, true, false, none, some, List, [], ◌∷◌, ◌++◌, arith,
  count, ==_refl, update, count-append,
}
use brpc_source_code_analysi.Butex.State.{
  Mem, Env, Waiter, unmatched_value, IsLinked, tid_of, resumed, signalled_pthreads,
  set_waiter_state,
}
use brpc_source_code_analysi.Butex.Wake.{butex_wake_all}
use brpc_source_code_analysi.Butex.Frame.{unsleep-Frame}
use brpc_source_code_analysi.Butex.Woken.{unsleep-Added, tids, bthreads}
use brpc_source_code_analysi.Butex.Order.{butex_wake_all-Woken}
use brpc_source_code_analysi.Butex.Wait.{may_queue, back_to_run, wait_for_butex}

-- The waiter is to be queued: the value is the expected one, and the waiter was neither timed out
-- by the timer thread nor interrupted before.
abbrev pub should_queue : ℕ → Mem → Bool
should_queue bw m =
    (m.value (m.waiter bw).initial_butex == (m.waiter bw).expected_value) && may_queue bw m

-- The waiter waits at the end of the queue, and nobody was made runnable.
pub record Queued (b bw : ℕ) (m m' : Mem) : Type 0 where
  pub queue : m'.waiters b ≡ m.waiters b ++ bw ∷ []
  pub owned : m'.container bw ≡ some b
  pub no_calls : m'.calls ≡ m.calls
  pub same_waiter : m'.waiter ≡ m.waiter

-- The bthread of the waiter was made runnable once, and no queue has changed.
pub record Returned (bw : ℕ) (m m' : Mem) : Type 0 where
  pub same_queues : m'.waiters ≡ m.waiters
  pub same_container : m'.container ≡ m.container
  pub resumes : resumed m'.calls ≡ tid_of m bw ∷ resumed m.calls
  pub signals : signalled_pthreads m'.calls ≡ signalled_pthreads m.calls

abbrev pub Outcome : Bool → ℕ → Mem → Mem → Type 0
Outcome true bw m m' = Queued (m.waiter bw).initial_butex bw m m'
Outcome false bw m m' = Returned bw m m'

back_to_run-Returned : (env : Env) (g bw : ℕ) (m : Mem) → Returned bw m (back_to_run env g bw m)
unfolding back_to_run
back_to_run-Returned env g bw m = ground (arith, unsleep-Frame env bw m, unsleep-Added env bw m)

-- `wait_for_butex` either queues the waiter or makes its bthread runnable again, exactly as the
-- value, the state of the waiter and the interruption flag say.
pub wait_for_butex-Outcome :
    (env : Env) (g bw : ℕ) (m : Mem) → Outcome (should_queue bw m) bw m (wait_for_butex env g bw m)
unfolding wait_for_butex
wait_for_butex-Outcome env g bw m = ground (
  arith,
  ==_refl bw,
  ==_refl (m.waiter bw).initial_butex,
  back_to_run-Returned env g bw m,
  back_to_run-Returned env g bw (set_waiter_state bw unmatched_value m),
)

-- A waiter that stands in no queue is queued once.
pub wait_for_butex-IsLinked :
    (env : Env) (g bw : ℕ) (m : Mem)
    → m.container bw ≡ none
    → IsLinked m
    → IsLinked (wait_for_butex env g bw m)
unfolding wait_for_butex back_to_run
wait_for_butex-IsLinked env g bw m free h c w = ground (
  arith,
  h c w,
  h c bw,
  ==_refl bw,
  count-append w (m.waiters (m.waiter bw).initial_butex) (bw ∷ []),
  unsleep-Frame env bw m,
  unsleep-Frame env bw (set_waiter_state bw unmatched_value m),
)

-- Another thread stores a new value.
abbrev pub store : ℕ → ℕ → Mem → Mem
store b v m = record m { value = update m.value b v }

count-resumed :
    (bw : ℕ) (wt : ℕ → Waiter) (ws : List ℕ)
    → ((wt bw).tid == 0) ≡ false
    → 0 < count (wt bw).tid (tids wt (bthreads wt (ws ++ bw ∷ [])))
count-resumed bw wt [] h = ground (arith, ==_refl (wt bw).tid)
count-resumed bw wt (w ∷ ws) h = ground (arith, count-resumed bw wt ws h)

-- `wake_all` takes nothing off the record of resumed bthreads, and resumes a waiter that is last.
pub wake_all-count :
    (env : Env) (b t : ℕ) (m : Mem)
    → count t (resumed m.calls) ≤ count t (resumed (butex_wake_all env b m).0.calls)
wake_all-count env b t m = omega (
  arith,
  ap (count t) (butex_wake_all-Woken env b m).resumes,
  count-append t (tids m.waiter (bthreads m.waiter (m.waiters b))) (resumed m.calls),
)

pub wake_all-count_last :
    (env : Env) (b bw : ℕ) (ws : List ℕ) (m : Mem)
    → m.waiters b ≡ ws ++ bw ∷ []
    → (tid_of m bw == 0) ≡ false
    → count (tid_of m bw) (resumed m.calls)
      < count (tid_of m bw) (resumed (butex_wake_all env b m).0.calls)
wake_all-count_last env b bw ws m e h = omega (
  arith,
  ap (count (tid_of m bw)) (butex_wake_all-Woken env b m).resumes,
  count-append (tid_of m bw) (tids m.waiter (bthreads m.waiter (m.waiters b))) (resumed m.calls),
  count-resumed bw m.waiter ws h,
  ap (λ (l : List ℕ). count (tid_of m bw) (tids m.waiter (bthreads m.waiter l))) e,
)
