-- ===== src/Task/Sleep.antt =====
-- dbrpc/task_group.cpp: a sleeping bthread, the timer and `interrupt`.
use brpc_source_code_analysi.Prelude.{
  ℕ, suc, ◌+◌, ◌≡◌, ◌≢◌, refl, ◌∙◌, arith, ◌==◌, ◌||◌, if◌then◌else◌, Bool, true, false, none, some,
  List, [], ◌∷◌,
}
use brpc_source_code_analysi.Butex.State.{Unscheduled, removed, running, missing}
use brpc_source_code_analysi.Task.Meta.{
  TaskMeta, TidCodec, Pool, set_meta, address_meta, is_current, get_version,
}
use brpc_source_code_analysi.Task.Interrupt.{
  Call, ready_to_run, ready_to_run_remote, erase_from_butex, unschedule, done, einval, interrupt,
  interrupt_and_consume_waiters, wake_interrupted, add_sleep_event, sleep_estop, sleep_eintr, slept,
  after_sleep,
}
use brpc_source_code_analysi.Task.Identity.{current_found, set_meta_same}

-- How often the calls put a bthread back into a run queue.
abbrev pub wakeups : ℕ → List Call → ℕ
wakeups tid [] = 0
wakeups tid (ready_to_run t ∷ cs) = if t == tid then suc (wakeups tid cs) else wakeups tid cs
wakeups tid (ready_to_run_remote t ∷ cs) = if t == tid then suc (wakeups tid cs) else wakeups tid cs
wakeups tid (erase_from_butex w ∷ cs) = wakeups tid cs
wakeups tid (unschedule s ∷ cs) = wakeups tid cs

-- The callback of the timer runs, or ran, unless `unschedule` removed it.
abbrev pub timer_wakeups : Unscheduled → ℕ
timer_wakeups removed = 0
timer_wakeups running = 1
timer_wakeups missing = 1

module _ (C : TidCodec) where
  open C use {get_slot}

  -- The bthread of `tid` runs and is about to sleep.
  pub record GoesToSleep (tid : ℕ) (p : Pool) : Type 0 where
    pub meta : TaskMeta
    pub found : p (get_slot tid) ≡ some meta
    pub current : meta.version_butex ≡ get_version tid
    pub no_waiter : meta.current_waiter ≡ none
    pub no_sleep : meta.current_sleep ≡ 0
    pub not_interrupted : meta.interrupted ≡ false

  added :
      (timer_unschedule : ℕ → Unscheduled) (sleep_id tid : ℕ) (p : Pool) (m : TaskMeta)
      → p (get_slot tid) ≡ some m
      → is_current C m tid ≡ true
      → m.interrupted ≡ false
      → sleep_id ≢ 0
      → add_sleep_event C timer_unschedule sleep_id tid p
        ≡ (set_meta (get_slot tid) (record m { current_sleep = sleep_id }) p, [])
  unfolding add_sleep_event address_meta
  added timer_unschedule sleep_id tid p m found ok calm set = ground (arith, found, ok, calm, set)

  refused :
      (timer_unschedule : ℕ → Unscheduled) (sleep_id tid : ℕ) (p : Pool) (m : TaskMeta)
      → p (get_slot tid) ≡ some m
      → m.interrupted ≡ true
      → sleep_id ≢ 0
      → wakeups tid (add_sleep_event C timer_unschedule sleep_id tid p).1
          + timer_wakeups (timer_unschedule sleep_id)
        ≡ 1
  unfolding add_sleep_event address_meta
  refused timer_unschedule sleep_id tid p m found interrupted set =
      ground (arith, found, interrupted, set)

  -- What `interrupt` does to a bthread that does not wait on a butex.
  consumed :
      (timer_unschedule : ℕ → Unscheduled) (has_group has_control : Bool) (tid : ℕ) (p : Pool)
      (m : TaskMeta)
      → p (get_slot tid) ≡ some m
      → is_current C m tid ≡ true
      → m.current_waiter ≡ none
      → interrupt C timer_unschedule has_group has_control tid p
        ≡ wake_interrupted C timer_unschedule has_group has_control tid none m.current_sleep (
            set_meta
              (get_slot tid)
              (record m { current_waiter = none; current_sleep = 0; interrupted = true })
              p)
  unfolding interrupt interrupt_and_consume_waiters address_meta
  consumed timer_unschedule has_group has_control tid p m found ok alone =
      ground (arith, found, ok, alone)

  woken :
      (timer_unschedule : ℕ → Unscheduled) (has_group has_control : Bool) (sleep_id tid : ℕ)
      (p : Pool)
      → sleep_id ≢ 0
      → (has_group || has_control) ≡ true
      → wakeups tid
            (wake_interrupted C timer_unschedule has_group has_control tid none sleep_id p).1
          + timer_wakeups (timer_unschedule sleep_id)
        ≡ 1
  unfolding wake_interrupted
  woken timer_unschedule has_group has_control sleep_id tid p set can_wake =
      ground (arith, set, can_wake)

  nothing_to_wake :
      (timer_unschedule : ℕ → Unscheduled) (has_group has_control : Bool) (tid sleep_id : ℕ)
      (p : Pool)
      → sleep_id ≡ 0
      → wake_interrupted C timer_unschedule has_group has_control tid none sleep_id p
        ≡ (p, [], done)
  unfolding wake_interrupted
  nothing_to_wake timer_unschedule has_group has_control tid sleep_id p e = ground (arith, e)

  not_scheduled :
      (timer_unschedule : ℕ → Unscheduled) (tid : ℕ) (p : Pool)
      → wakeups tid (add_sleep_event C timer_unschedule 0 tid p).1 ≡ 1
  unfolding add_sleep_event
  not_scheduled timer_unschedule tid p = ground arith

  -- The timer event and one interruption race for a sleeping bthread. In whichever order the two
  -- take the lock of the meta, and whatever the timer answers to `unschedule`, the bthread is put
  -- into a run queue once, by the timer or by one of the two; when the timer could not be set, the
  -- bthread itself does it. The interrupter needs a group of its own or a control.
  pub sleep_wakes_once :
      (timer_unschedule : ℕ → Unscheduled) (has_group has_control : Bool) (sleep_id tid : ℕ)
      (p : Pool)
      → GoesToSleep tid p
      → sleep_id ≢ 0
      → (has_group || has_control) ≡ true
      → let slept_first = add_sleep_event C timer_unschedule sleep_id tid p in
        let then_interrupted =
          interrupt C timer_unschedule has_group has_control tid slept_first.0 in
        let interrupted_first = interrupt C timer_unschedule has_group has_control tid p in
        let then_slept = add_sleep_event C timer_unschedule sleep_id tid interrupted_first.0 in
        let by_timer = timer_wakeups (timer_unschedule sleep_id) in
        (wakeups tid slept_first.1 + wakeups tid then_interrupted.1 + by_timer ≡ 1)
        × (wakeups tid interrupted_first.1 + wakeups tid then_slept.1 + by_timer ≡ 1)
        × (wakeups tid (add_sleep_event C timer_unschedule 0 tid p).1 ≡ 1)
  sleep_wakes_once timer_unschedule has_group has_control sleep_id tid p g set can_wake =
      let m = g.meta in
      let ok = current_found C tid m g.current in
      let m1 : TaskMeta = record m { current_sleep = sleep_id } in
      let m2 : TaskMeta = record m {
        current_waiter = none;
        current_sleep = 0;
        interrupted = true;
      } in
      let s1 : add_sleep_event C timer_unschedule sleep_id tid p
          ≡ (set_meta (get_slot tid) m1 p, []) =
        added timer_unschedule sleep_id tid p m g.found ok g.not_interrupted set in
      let found1 = set_meta_same C (get_slot tid) m1 p in
      let s2 =
        consumed timer_unschedule has_group has_control tid (set_meta (get_slot tid) m1 p) m1 found1
          ok g.no_waiter in
      let i1 = consumed timer_unschedule has_group has_control tid p m g.found ok g.no_waiter in
      let i2 =
        i1
        ∙ nothing_to_wake timer_unschedule has_group has_control tid m.current_sleep
            (set_meta (get_slot tid) m2 p) g.no_sleep in
      (
        rw (s1, s2)
            (omega (
              arith,
              woken timer_unschedule has_group has_control sleep_id tid
                  (set_meta (get_slot tid) m2 (set_meta (get_slot tid) m1 p)) set can_wake,
            )),
        rw (i2) (
            omega (
              arith,
              refused timer_unschedule sleep_id tid (set_meta (get_slot tid) m2 p) m2
                  (set_meta_same C (get_slot tid) m2 p) refl set,
            )),
        not_scheduled timer_unschedule tid p,
      )

  -- An interrupter without a group and without a control that removes the timer event of a sleeping
  -- bthread answers EINVAL and leaves the bthread asleep: neither the timer nor a call wakes it.
  pub interrupt_without_control_strands_sleeper :
      (timer_unschedule : ℕ → Unscheduled) (sleep_id tid : ℕ) (p : Pool)
      → GoesToSleep tid p
      → sleep_id ≢ 0
      → timer_unschedule sleep_id ≡ removed
      → let slept_first = add_sleep_event C timer_unschedule sleep_id tid p in
        let then_interrupted = interrupt C timer_unschedule false false tid slept_first.0 in
        (wakeups tid slept_first.1
            + wakeups tid then_interrupted.1
            + timer_wakeups (timer_unschedule sleep_id)
          ≡ 0)
        × (then_interrupted.2 ≡ einval)
  unfolding wake_interrupted
  interrupt_without_control_strands_sleeper timer_unschedule sleep_id tid p g set gone =
      let m = g.meta in
      let ok = current_found C tid m g.current in
      let m1 : TaskMeta = record m { current_sleep = sleep_id } in
      let s1 = added timer_unschedule sleep_id tid p m g.found ok g.not_interrupted set in
      let s2 =
        consumed timer_unschedule false false tid (set_meta (get_slot tid) m1 p) m1
          (set_meta_same C (get_slot tid) m1 p) ok g.no_waiter in
      (rw (s1, s2) (ground (arith, set, gone)), rw (s1, s2) (ground (arith, set, gone)))

-- An interruption is taken by one return from a sleep: that one answers ESTOP if the bthread is
-- stopping and EINTR if it is not, the next one reports none.
pub interruption_taken_once :
    (m : TaskMeta)
    → m.interrupted ≡ true
    → ((after_sleep m).1 ≡ (if m.stop then sleep_estop else sleep_eintr))
      × ((after_sleep (after_sleep m).0).1 ≡ slept)
      × ((after_sleep m).0.current_sleep ≡ 0)
unfolding after_sleep
interruption_taken_once m e = ground (arith, e)
