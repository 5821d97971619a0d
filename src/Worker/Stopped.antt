-- ===== src/Worker/Stopped.antt =====
-- dbrpc/task_group.cpp: `wait_task` after `stop_and_join`.
use mathlib.Core.Path.{subst}
use brpc_source_code_analysi.Prelude.{
  ℕ, suc, ◌≡◌, refl, sym, ap, ◌∙◌, ◌<◌, ◌⊎◌, true, false, Option, none, some, ◌∷◌, update, arith,
  inl, inr, Bool-cases, Option-cases, ==_refl,
}
use brpc_source_code_analysi.Queues.{WorkStealingQueue, RemoteTaskQueue}
use brpc_source_code_analysi.Control.Groups.{Groups, stop_groups}
use brpc_source_code_analysi.Control.Signal.{parking_lot_num}
use brpc_source_code_analysi.Control.Steal.{steal_task}
use brpc_source_code_analysi.Worker.Lot.{ParkingLot}
use brpc_source_code_analysi.Worker.Wait.{
  Shared, Waited, task, lot_stopped, save_state, group_steal_task, found_or, wait_task,
}
use brpc_source_code_analysi.Worker.Stop.{Stopping, stop_and_join, stop_lots-stopped}

module _ (W : WorkStealingQueue) (R : RemoteTaskQueue) (L : ParkingLot) where
  abbrev World : Type 0
  World = Shared W R L

  -- The table is empty and the lot of the worker is stopped.
  abbrev IsStopped : World → Type 0
  IsStopped s = (s.table.ngroup ≡ 0) × (L.stopped s.lot ≡ true)

  module _ (until_wait_ends meanwhile : ℕ → World → World) (g offset : ℕ) where
    -- Nothing that the other threads do restarts a control, or touches the state that the worker saved.
    pub record StaysStopped : Type 0 where
      pub wait_table :
          (r : ℕ) (s : World) → s.table.ngroup ≡ 0 → (until_wait_ends r s).table.ngroup ≡ 0
      pub wait_lot :
          (r : ℕ) (s : World) → L.stopped s.lot ≡ true → L.stopped (until_wait_ends r s).lot ≡ true
      pub wait_keeps : (r : ℕ) (s : World) → (until_wait_ends r s).last_pl_state ≡ s.last_pl_state
      pub steal_table : (r : ℕ) (s : World) → s.table.ngroup ≡ 0 → (meanwhile r s).table.ngroup ≡ 0
      pub steal_keeps : (r : ℕ) (s : World) → (meanwhile r s).last_pl_state ≡ s.last_pl_state

    -- `wait_task` answers false, or takes the oldest task of the group's own remote queue. `u` is the
    -- state when its first wait ends.
    abbrev pub Drains : (u : World) → World × Waited → Type 0
    Drains u after =
        (after.1 ≡ lot_stopped)
        ⊎ ((tid : ℕ) × (R.contents (u.queues.remote_rq g)
              ≡ tid ∷ R.contents (after.0.queues.remote_rq g))
            × (after.1 ≡ task tid))

    abbrev run : (fuel round : ℕ) → World → World × Waited
    run fuel round s = wait_task W R L until_wait_ends meanwhile g offset fuel round s

    marked_already :
        (fuel round : ℕ) (s : World)
        → L.stopped s.last_pl_state ≡ true
        → run (suc fuel) round s ≡ (s, lot_stopped)
    unfolding wait_task
    marked_already fuel round s marked = ground (arith, marked)

    -- A round that neither returns at once nor sleeps.
    one_round :
        (fuel round : ℕ) (s : World)
        → L.stopped s.last_pl_state ≡ false
        → L.equal (until_wait_ends round s).lot (until_wait_ends round s).last_pl_state ≡ false
        → let stolen =
            group_steal_task W R L (meanwhile round) g offset (until_wait_ends round s) in
          run (suc fuel) round s ≡ found_or W R L stolen (run fuel (suc round) stolen.0)
    unfolding wait_task
    one_round fuel round s going differs = ground (arith, going, differs)

    from_own : (tid : ℕ) → R.Queue → World → World × Option ℕ
    from_own tid q u = (
      record u { queues = record (u.queues) { remote_rq = update u.queues.remote_rq g q } },
      some tid,
    )

    steal-own :
        (round tid : ℕ) (q : R.Queue) (u : World)
        → R.pop (u.queues.remote_rq g) ≡ some (tid, q)
        → group_steal_task W R L (meanwhile round) g offset u ≡ from_own tid q u
    unfolding group_steal_task from_own
    steal-own round tid q u found = ground (arith, found)

    steal-none :
        (round : ℕ) (u : World)
        → R.pop (u.queues.remote_rq g) ≡ none
        → (meanwhile round (save_state W R L u)).table.ngroup ≡ 0
        → group_steal_task W R L (meanwhile round) g offset u
          ≡ (meanwhile round (save_state W R L u), none)
    unfolding group_steal_task steal_task
    steal-none round u nothing empty = ground (arith, nothing, empty)

    module _ (stopped : StaysStopped) where
      not_equal :
          (round : ℕ) (s : World)
          → IsStopped s
          → L.stopped s.last_pl_state ≡ false
          → L.equal (until_wait_ends round s).lot (until_wait_ends round s).last_pl_state ≡ false
      not_equal round s (empty, lot) going =
          let u = until_wait_ends round s in
          elim (Bool-cases (L.equal u.lot u.last_pl_state)) [
            | inr differs ↦ differs
            | inl same_state ↦ absurd (
                ground (
                  arith,
                  L.equal_eq u.lot u.last_pl_state same_state,
                  stopped.wait_lot round s lot,
                  stopped.wait_keeps round s,
                  going,
                ))
          ]

      -- A round that begins with a state from before the stop.
      first_round-Drains :
          (fuel round : ℕ) (s : World)
          → IsStopped s
          → L.stopped s.last_pl_state ≡ false
          → Drains (until_wait_ends round s) (run (suc (suc fuel)) round s)
      unfolding from_own
      first_round-Drains fuel round s (empty, lot) going =
          let u = until_wait_ends round s in
          let x = meanwhile round (save_state W R L u) in
          let again = λ (stolen : World × Option ℕ).
            found_or W R L stolen (run (suc fuel) (suc round) stolen.0) in
          let whole = one_round (suc fuel) round s going (not_equal round s (empty, lot) going) in
          elim (Option-cases (R.pop (u.queues.remote_rq g))) [
            | inr ((tid, q), found) ↦
                subst (Drains (until_wait_ends round s)) {x = ((from_own tid q u).0, task tid)}
                  (sym (whole ∙ ap again (steal-own round tid q u found)))
                  (inr (tid, rw (==_refl g) (R.pop-some tid (u.queues.remote_rq g) q found), refl))
            | inl nothing ↦
                let none_left =
                  stopped.steal_table round (save_state W R L u)
                    (stopped.wait_table round s empty) in
                let marked : L.stopped x.last_pl_state ≡ true =
                  ap L.stopped (stopped.steal_keeps round (save_state W R L u))
                  ∙ stopped.wait_lot round s lot in
                subst (Drains (until_wait_ends round s)) {x = (x, lot_stopped)}
                  (sym (
                    whole
                    ∙ ap again (steal-none round u nothing none_left)
                    ∙ marked_already fuel (suc round) x marked))
                  (inl refl)
          ]

      wait-Drains :
          (fuel round : ℕ) (s : World)
          → IsStopped s
          → Drains (until_wait_ends round s) (run (suc (suc fuel)) round s)
      wait-Drains fuel round s now = elim (Bool-cases (L.stopped s.last_pl_state)) [
        | inl marked ↦
            subst (Drains (until_wait_ends round s))
              (sym (marked_already (suc fuel) round s marked)) (inl refl)
        | inr going ↦ first_round-Drains fuel round s now going
      ]

    -- After `stop_and_join`, however a worker is in `wait_task` and whatever state it has saved: within
    -- two rounds the call answers false, or the oldest task that is left in the worker's own remote
    -- queue; it takes no other task and does not sleep. The lot of the worker is one of the four, and
    -- the other threads do not restart a control.
    pub stop_and_join-Drains :
        (num_workers lot fuel round : ℕ) (c : Stopping L) (s : World)
        → StaysStopped
        → lot < parking_lot_num
        → s.lot ≡ (stop_and_join L num_workers c).lots lot
        → s.table ≡ (stop_and_join L num_workers c).table
        → Drains
            (until_wait_ends round s)
            (wait_task W R L until_wait_ends meanwhile g offset (suc (suc fuel)) round s)
    unfolding stop_and_join stop_groups
    stop_and_join-Drains num_workers lot fuel round c s stopped lt at_lot at_table =
        wait-Drains stopped fuel round s (
          ap (λ (t : Groups). t.ngroup) at_table,
          ap L.stopped (
                at_lot
                ∙ stop_lots-stopped L parking_lot_num 0 lot c.lots (omega arith)
                    (omega (arith, lt)))
              ∙ L.stopped-stop (c.lots lot),
        )
