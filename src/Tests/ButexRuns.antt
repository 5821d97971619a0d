-- ===== src/Tests/ButexRuns.antt =====
-- dbrpc/butex.cpp on a butex with two bthreads and a pthread.
use brpc_source_code_analysi.Prelude.{
  ℕ, ◌≡◌, refl, ◌==◌, ◌||◌, if◌then◌else◌, Bool, true, false, none, some, [], ◌∷◌, arith, count,
  not, ==_refl,
}
use brpc_source_code_analysi.Butex.State.{
  Mem, Waiter, Env, Unscheduled, removed, missing, timeout, ready, not_signalled, IsLinked,
  unsleep_if_necessary,
}
use brpc_source_code_analysi.Butex.Wake.{run_front, butex_wake, butex_wake_all, butex_wake_except}
use brpc_source_code_analysi.Butex.Wait.{
  requeue_between, butex_requeue, erase_from_butex, erase_loop, wait_for_butex, back_to_run,
}
use brpc_source_code_analysi.Butex.Woken.{Woken}
use brpc_source_code_analysi.Butex.LostWakeup.{
  no_lost_wakeup, MadeRunnable, wait_store_wake, store_wait_wake, store_wake_wait,
}
use brpc_source_code_analysi.Butex.Steps.{
  Reach, here, later, suspends, wakes, IsInitial, Reach-IsLinked,
}
use brpc_source_code_analysi.Butex.Order.{butex_wake_all-Woken}
use brpc_source_code_analysi.Butex.OrderExcept.{without, only, butex_wake_except-Woken}
use brpc_source_code_analysi.Butex.Requeue.{MovedRest, butex_requeue_deadlocks}
use brpc_source_code_analysi.Butex.Erase.{erase_once}
use brpc_source_code_analysi.Butex.Linked.{butex_wake-IsLinked}
use brpc_source_code_analysi.Butex.Spec.{view, wake, wait}
use brpc_source_code_analysi.Butex.Refines.{SpecReach, Reach-SpecReach}
use brpc_source_code_analysi.Butex.OneByOne.{wake_each, butex_wake_all-wake_each}

abbrev timers : ℕ → Unscheduled
timers id = if id == 7 then removed else missing

abbrev worker : Env
worker = record { tls_task_group = some 1; choose_one_group = 2; timer_unschedule = timers }

abbrev outside : Env
outside = record { tls_task_group = none; choose_one_group = 2; timer_unschedule = timers }

-- Waiters 11 and 12 are bthreads, 13 is a pthread; all wait for the value 5 of butex 3.
abbrev the_waiters : ℕ → Waiter
the_waiters w = record {
  tid = if w == 11 then 101 else if w == 12 then 102 else 0;
  task_meta = w;
  expected_value = 5;
  initial_butex = 3;
}

abbrev idle : Mem
idle = record {
  value = λ _. 5;
  waiters = λ _. [];
  waiter = the_waiters;
  container = λ _. none;
  sleep_id = λ w. if w == 12 then 7 else 0;
  waiter_state = λ _. ready;
  sig = λ _. not_signalled;
  task_interrupted = λ _. false;
  current_waiter = λ _. none;
  calls = [];
}

abbrev in_butex : ℕ → Bool
in_butex w = w == 11 || w == 12 || w == 13

abbrev waiting : Mem
waiting = record idle {
  waiters = λ b. if b == 3 then 11 ∷ 13 ∷ 12 ∷ [] else [];
  container = λ w. if in_butex w then some 3 else none;
}

butex_wake_all-Woken_example :
    Woken waiting 3
      (waiting.waiters 3)
      []
      (butex_wake_all worker 3 waiting).0
      (butex_wake_all worker 3 waiting).1
butex_wake_all-Woken_example = butex_wake_all-Woken worker 3 waiting

no_lost_wakeup_example :
    MadeRunnable worker outside 1 11 6 idle refl refl (wait_store_wake worker outside 1 11 6 idle)
    × MadeRunnable worker outside 1 11 6 idle refl refl (store_wait_wake worker outside 1 11 6 idle)
    × MadeRunnable worker outside 1 11 6 idle refl refl (store_wake_wait worker outside 1 11 6 idle)
no_lost_wakeup_example = no_lost_wakeup worker outside 1 11 6 idle refl refl

butex_wake_except-Woken_example :
    Woken waiting 3
      (without the_waiters 102 (waiting.waiters 3))
      (only the_waiters 102 (waiting.waiters 3))
      (butex_wake_except worker 3 102 waiting).0
      (butex_wake_except worker 3 102 waiting).1
butex_wake_except-Woken_example = butex_wake_except-Woken worker 3 102 waiting (ground arith)

-- Two locks of one mutex are never got.
abbrev different : ℕ → ℕ → Bool
different b m = not (b == m)

same_mutex : (x : ℕ) → different x x ≡ false
same_mutex x = rw (==_refl x) refl

butex_requeue_deadlocks_example :
    (butex_requeue different worker 1000 3 4 waiting ≡ none)
    × MovedRest 3 4 waiting (requeue_between different worker 4 3 4 waiting)
butex_requeue_deadlocks_example =
    butex_requeue_deadlocks different worker 1000 4 3 4 3 4 waiting same_mutex refl (omega arith)

-- After one wait of each bthread and a wake.
abbrev one_waits : Mem
one_waits = wait_for_butex worker 1 11 idle

abbrev two_wait : Mem
two_wait = wait_for_butex worker 1 12 one_waits

abbrev one_woken : Mem
one_woken = (butex_wake outside 3 two_wait).0

idle-IsInitial : IsInitial idle
idle-IsInitial = record { no_waiters = λ _. refl; no_container = λ _. refl }

history : Reach idle one_woken
unfolding wait_for_butex back_to_run unsleep_if_necessary
history =
    later (later (later here (suspends worker 1 11 refl refl)) (suspends worker 1 12 refl refl))
      (wakes outside 3 refl)

Reach-IsLinked_example : IsLinked one_woken
Reach-IsLinked_example = Reach-IsLinked idle-IsInitial history

linked : IsLinked waiting
linked b w = ground arith

-- Another thread wakes the front of butex 3 before the lock is taken.
abbrev woken_between : ℕ → Mem → Mem
woken_between i k = (butex_wake outside 3 k).0

abbrev after_wake : Mem
after_wake = woken_between 0 waiting

lost_race :
    erase_from_butex worker woken_between 2 11 true timeout waiting ≡ some (after_wake, false)
unfolding erase_from_butex erase_loop butex_wake run_front unsleep_if_necessary
lost_race = refl

erase_once_example :
    (after_wake.container 11 ≡ none)
    × ((c : ℕ) → count 11 (after_wake.waiters c) ≡ 0)
    × IsLinked after_wake
    × (erase_from_butex outside (λ i k. k) 1 11 false ready after_wake ≡ some (after_wake, false))
erase_once_example =
    erase_once worker outside woken_between (λ i k. k) 2 0 11 true false timeout ready waiting
      after_wake false (λ i k. butex_wake-IsLinked outside 3 k) linked lost_race

Reach-SpecReach_example :
    SpecReach (view idle) (view one_woken) (wake 3 ∷ wait 12 true ∷ wait 11 true ∷ [])
unfolding history
Reach-SpecReach_example = Reach-SpecReach idle-IsInitial history

butex_wake_all-wake_each_example :
    (view (butex_wake_all worker 3 waiting).0 ≡ view (wake_each (λ _. outside) 3 3 waiting).0)
    × ((butex_wake_all worker 3 waiting).1 ≡ (wake_each (λ _. outside) 3 3 waiting).1)
butex_wake_all-wake_each_example = butex_wake_all-wake_each worker (λ _. outside) 3 waiting
