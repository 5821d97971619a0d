-- ===== src/Task/History.antt =====
-- dbrpc/task_group.cpp: identifiers over a whole history of the pool, as a relation between pools.

use brpc_source_code_analysi.Prelude.{
  ℕ, suc, ◌-◌, ◌/◌, ◌%◌, ◌^◌, ◌≡◌, ◌≢◌, ◌<◌, sym, ap, ◌∙◌, arith, Option, some,
}
use brpc_source_code_analysi.Butex.State.{Unscheduled}
use brpc_source_code_analysi.Task.Meta.{TaskMeta, Attr, TidCodec, Pool, set_stopped, get_version}
use brpc_source_code_analysi.Task.Life.{started, start_task, end_task, next_version}
use brpc_source_code_analysi.Task.Interrupt.{
  interrupt_and_consume_waiters, set_butex_waiter, add_sleep_event,
}
use brpc_source_code_analysi.Task.Version.{after_runs, after_runs_fresh}
use brpc_source_code_analysi.Task.Identity.{IsRunning, IsOver}
use brpc_source_code_analysi.Task.Edits.{
  HasVersion, KeepsVersion, Edited-KeepsVersion, set_stopped-Edited, set_butex_waiter-Edited,
  consume-Edited, add_sleep_event-Edited, start_task-KeepsVersion,
}

module _ (C : TidCodec) where
  open C use {get_slot}

  -- The steps of any thread, one for each time that it holds the lock of a meta. The number counts
  -- the ends of runs in `slot`.
  pub data History (slot : ℕ) : ℕ → Pool → Pool → Type 0 where
    begin : (p : Pool) → History slot 0 p p
    ended_here :
        (k : ℕ) (p p' : Pool) → History slot k p p' → History slot (suc k) p (end_task slot p')
    ended_elsewhere :
        (at k : ℕ) (p p' : Pool)
        → at ≢ slot
        → History slot k p p'
        → History slot k p (end_task at p')
    has_started :
        (k : ℕ) (get_resource : Option ℕ) (fresh : TaskMeta) (fn arg now : ℕ) (attr : Option Attr)
        (normal : Attr) (tid : ℕ) (p p' p'' : Pool)
        → start_task C get_resource fresh fn arg now attr normal p' ≡ started tid p''
        → History slot k p p'
        → History slot k p p''
    was_stopped :
        (k tid : ℕ) (p p' : Pool) → History slot k p p' → History slot k p (set_stopped C tid p')
    was_consumed :
        (k tid : ℕ) (w : Option ℕ) (sleep_id : ℕ) (p p' p'' : Pool)
        → interrupt_and_consume_waiters C tid p' ≡ some (w, sleep_id, p'')
        → History slot k p p'
        → History slot k p p''
    set_back :
        (k tid w : ℕ) (p p' p'' : Pool)
        → set_butex_waiter C tid w p' ≡ some p''
        → History slot k p p'
        → History slot k p p''
    went_to_sleep :
        (timer_unschedule : ℕ → Unscheduled) (k sleep_id tid : ℕ) (p p' : Pool)
        → History slot k p p'
        → History slot k p (add_sleep_event C timer_unschedule sleep_id tid p').0

  end_task-KeepsVersion : (slot at : ℕ) (p : Pool) → at ≢ slot → KeepsVersion slot p (end_task at p)
  unfolding end_task
  end_task-KeepsVersion slot at p other v (m, found, e) = (m, ground (arith, other, found), e)

  end_task-HasVersion :
      (slot v : ℕ) (p : Pool)
      → HasVersion slot v p
      → HasVersion slot (next_version v) (end_task slot p)
  unfolding end_task
  end_task-HasVersion slot v p (m, found, e) = (
    record m { version_butex = next_version m.version_butex },
    ground (arith, found),
    ap next_version e,
  )

  keep :
      (slot v : ℕ) (p p' : Pool)
      → KeepsVersion slot p p'
      → HasVersion slot v p
      → HasVersion slot v p'
  keep slot v p p' keeps has = keeps v has

  History-HasVersion :
      (slot k v : ℕ) (p p' : Pool)
      → History slot k p p'
      → HasVersion slot v p
      → HasVersion slot (after_runs k v) p'
  History-HasVersion slot k v p p' (begin _) has = has
  History-HasVersion slot k v p p' (ended_here k' _ q h) has =
      end_task-HasVersion slot (after_runs k' v) q (History-HasVersion slot k' v p q h has)
  History-HasVersion slot k v p p' (ended_elsewhere at _ _ q other h) has =
      keep slot (after_runs k v) q p' (end_task-KeepsVersion slot at q other)
        (History-HasVersion slot k v p q h has)
  History-HasVersion slot k v p p' (has_started _ r fresh fn arg now attr normal tid _ q _ e h)
        has =
      keep slot (after_runs k v) q p'
        (start_task-KeepsVersion C slot r fresh fn arg now attr normal q tid p' e)
        (History-HasVersion slot k v p q h has)
  History-HasVersion slot k v p p' (was_stopped _ tid _ q h) has =
      keep slot (after_runs k v) q p' (Edited-KeepsVersion C slot q p' (set_stopped-Edited C tid q))
        (History-HasVersion slot k v p q h has)
  History-HasVersion slot k v p p' (was_consumed _ tid w sleep_id _ q _ e h) has =
      keep slot (after_runs k v) q p'
        (Edited-KeepsVersion C slot q p' (consume-Edited C tid q w sleep_id p' e))
        (History-HasVersion slot k v p q h has)
  History-HasVersion slot k v p p' (set_back _ tid w _ q _ e h) has =
      keep slot (after_runs k v) q p'
        (Edited-KeepsVersion C slot q p' (set_butex_waiter-Edited C tid w q p' e))
        (History-HasVersion slot k v p q h has)
  History-HasVersion slot k v p p' (went_to_sleep timer _ sleep_id tid _ q h) has =
      keep slot (after_runs k v) q p'
        (Edited-KeepsVersion C slot q p' (add_sleep_event-Edited C timer sleep_id tid q))
        (History-HasVersion slot k v p q h has)

  -- Whatever the threads do, an identifier keeps naming its run while no run of its slot ends.
  pub History-IsRunning :
      (tid : ℕ) (p p' : Pool)
      → History (get_slot tid) 0 p p'
      → IsRunning C tid p
      → IsRunning C tid p'
  History-IsRunning tid p p' h (m, found, e, not_zero) =
      let (m', found', e') =
        History-HasVersion (get_slot tid) 0 (get_version tid) p p' h (m, found, e) in
      (m', found', e', not_zero)

  -- Whatever the threads do, from the end of its run on an identifier names no run, while fewer than
  -- 2 ^ 32 - 1 runs of its slot end. The version of the identifier is not 0.
  pub History-IsOver :
      (tid k : ℕ) (p p' : Pool)
      → History (get_slot tid) (suc k) p p'
      → suc k < 2 ^ 32 - 1
      → IsRunning C tid p
      → 0 < get_version tid
      → IsOver C tid p'
  unfolding get_version
  History-IsOver tid k p p' h few (m, found, e, not_zero) positive =
      let v = tid / 2 ^ 32 % 2 ^ 32 in
      let (m', found', e') = History-HasVersion (get_slot tid) (suc k) v p p' h (m, found, e) in
      let (_, _, fresh) = after_runs_fresh (suc k) v positive (omega arith) in
      (m', found', λ same_version. fresh (omega arith) few (sym e' ∙ same_version))
