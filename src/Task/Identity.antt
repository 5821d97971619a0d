-- ===== src/Task/Identity.antt =====
-- dbrpc/task_group.cpp: what an identifier finds before, during and after the run that it names.
use brpc_source_code_analysi.Prelude.{
  ℕ, ◌^◌, ◌≡◌, ◌≢◌, ◌<◌, sym, ap, ◌∙◌, arith, ◌==◌, Bool, true, false, Option, some, [], Bool-cases,
  inl, inr, ==_eq, ==_comm,
}
use brpc_source_code_analysi.Task.Meta.{
  TaskMeta, Attr, TidCodec, Pool, set_meta, address_meta, is_current, set_stopped, is_stopped,
  exists, get_version,
}
use brpc_source_code_analysi.Butex.State.{Unscheduled}
use brpc_source_code_analysi.Task.Interrupt.{einval, interrupt, interrupt_and_consume_waiters}
use brpc_source_code_analysi.Task.Life.{
  started, start_task, slot_meta, attr_or, end_task, init_meta, next_version,
}
use brpc_source_code_analysi.Task.Version.{next_version-new}

module _ (C : TidCodec) where
  open C use {make_tid, get_slot}

  -- The bthread that `tid` names was started and its run has not ended.
  abbrev pub IsRunning : ℕ → Pool → Type 0
  IsRunning tid p =
      (m : TaskMeta) × (p (get_slot tid) ≡ some m) × (m.version_butex ≡ get_version tid) × (tid ≢ 0)

  -- The slot of `tid` has another version.
  abbrev pub IsOver : ℕ → Pool → Type 0
  IsOver tid p = (m : TaskMeta) × (p (get_slot tid) ≡ some m) × (m.version_butex ≢ get_version tid)

  not_current :
      (tid : ℕ) (m : TaskMeta) → m.version_butex ≢ get_version tid → is_current C m tid ≡ false
  not_current tid m ne = elim (Bool-cases (is_current C m tid)) [
    | inl e ↦ absurd (ne (sym (==_eq (get_version tid) m.version_butex e)))
    | inr e ↦ e
  ]

  -- An identifier whose run is over is told from a running one by every function that takes it: the
  -- bthread does not exist, counts as stopped, `set_stopped` does not touch the bthread that has the
  -- slot now, and `interrupt` answers EINVAL, changes nothing and calls nothing.
  pub over_rejected :
      (timer_unschedule : ℕ → Unscheduled) (has_group has_control : Bool) (tid : ℕ) (p : Pool)
      → IsOver tid p
      → (exists C tid p ≡ false)
        × (is_stopped C tid p ≡ true)
        × (set_stopped C tid p ≡ p)
        × (interrupt C timer_unschedule has_group has_control tid p ≡ (p, [], einval))
  unfolding exists is_stopped set_stopped interrupt interrupt_and_consume_waiters address_meta
  over_rejected timer_unschedule has_group has_control tid p (m, found, ne) =
      let stale = not_current tid m ne in
      let stale' : (m.version_butex == get_version tid) ≡ false =
        ==_comm m.version_butex (get_version tid) ∙ stale in
      ground (arith, found, stale, stale')

  pub current_found :
      (tid : ℕ) (m : TaskMeta) → m.version_butex ≡ get_version tid → is_current C m tid ≡ true
  current_found tid m e = ground (arith, e)

  exists_found :
      (tid : ℕ) (p : Pool) (m : TaskMeta)
      → p (get_slot tid) ≡ some m
      → m.version_butex ≡ get_version tid
      → tid ≢ 0
      → exists C tid p ≡ true
  unfolding exists address_meta
  exists_found tid p m found e positive = ground (arith, found, e, positive)

  is_stopped_found :
      (tid : ℕ) (p : Pool) (m : TaskMeta)
      → p (get_slot tid) ≡ some m
      → m.version_butex ≡ get_version tid
      → is_stopped C tid p ≡ m.stop
  unfolding is_stopped address_meta
  is_stopped_found tid p m found e = ground (arith, found, current_found tid m e)

  set_stopped_found :
      (tid : ℕ) (p : Pool) (m : TaskMeta)
      → p (get_slot tid) ≡ some m
      → m.version_butex ≡ get_version tid
      → set_stopped C tid p ≡ set_meta (get_slot tid) (record m { stop = true }) p
  unfolding set_stopped address_meta
  set_stopped_found tid p m found e = ground (arith, found, current_found tid m e)

  end_task_found :
      (slot : ℕ) (p : Pool) (m : TaskMeta)
      → p slot ≡ some m
      → end_task slot p
        ≡ set_meta slot (record m { version_butex = next_version m.version_butex }) p
  unfolding end_task
  end_task_found slot p m found = ground (arith, found)

  version_of_tid : (v slot : ℕ) → v < 2 ^ 32 → slot < 2 ^ 32 → get_version (make_tid v slot) ≡ v
  unfolding get_version
  version_of_tid v slot fits slot_fits = C.version-make_tid v slot fits slot_fits

  pub set_meta_same : (slot : ℕ) (m : TaskMeta) (p : Pool) → set_meta slot m p slot ≡ some m
  set_meta_same slot m p = ground arith

  -- The identifier of a running bthread finds it until the run ends: it exists, `is_stopped` says
  -- whether `set_stopped` was called, and the end of the run makes the identifier one that is over.
  -- The version has to fit into its 32 bits.
  pub IsRunning-until_end :
      (tid : ℕ) (p : Pool)
      → IsRunning tid p
      → (exists C tid p ≡ true)
        × (is_stopped C tid (set_stopped C tid p) ≡ true)
        × IsRunning tid (set_stopped C tid p)
        × IsOver tid (end_task (get_slot tid) p)
  unfolding get_version
  IsRunning-until_end tid p (m, found, current, positive) =
      let stopped = set_stopped_found tid p m found current in
      let slot = get_slot tid in
      let m1 : TaskMeta = record m { stop = true } in
      let found' : set_stopped C tid p slot ≡ some m1 =
        ap (λ q. q slot) stopped ∙ set_meta_same slot m1 p in
      (
        exists_found tid p m found current positive,
        is_stopped_found tid (set_stopped C tid p) m1 found' current,
        (m1, found', current, positive),
        (
          record m { version_butex = next_version m.version_butex },
          ap (λ q. q slot) (end_task_found slot p m found) ∙ set_meta_same slot _ p,
          λ e. next_version-new m.version_butex (omega (arith, current)) (e ∙ sym current),
        ),
      )

  -- A start with a function in a slot below 2 ^ 32, whose version is not 0 and fits into 32 bits,
  -- answers the identifier of a running bthread in that slot: it exists and is not stopped, whatever
  -- was done to the earlier bthreads of the slot.
  pub start_task-IsRunning :
      (slot fn arg now : ℕ) (attr : Option Attr) (normal : Attr) (fresh : TaskMeta) (p : Pool)
      → 0 < (slot_meta fresh (p slot)).version_butex
      → (slot_meta fresh (p slot)).version_butex < 2 ^ 32
      → slot < 2 ^ 32
      → fn ≢ 0
      → (tid : ℕ) × (p' : Pool) × (start_task C (some slot) fresh fn arg now attr normal p
          ≡ started tid p')
        × (get_slot tid ≡ slot)
        × IsRunning tid p'
        × (exists C tid p' ≡ true)
        × (is_stopped C tid p' ≡ false)
  unfolding start_task init_meta get_version
  start_task-IsRunning slot fn arg now attr normal fresh p positive fits slot_fits has_fn =
      let m = slot_meta fresh (p slot) in
      let tid = C.make_tid m.version_butex slot in
      let given = attr_or normal attr in
      let m' : TaskMeta = init_meta C slot fn arg now given m in
      let p' = set_meta slot m' p in
      let at_slot : get_slot tid ≡ slot = C.slot-make_tid m.version_butex slot fits slot_fits in
      let current : m'.version_butex ≡ get_version tid =
        sym (version_of_tid m.version_butex slot fits slot_fits) in
      let found : p' (get_slot tid) ≡ some m' = ap p' at_slot ∙ set_meta_same slot m' p in
      let not_zero : tid ≢ 0 = λ e. omega (arith, positive, current ∙ ap get_version e) in
      (
        tid,
        p',
        ground (arith, has_fn),
        at_slot,
        (m', found, current, not_zero),
        exists_found tid p' m' found current not_zero,
        is_stopped_found tid p' m' found current,
      )
