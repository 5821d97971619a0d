-- ===== src/Worker/MainLoop.antt =====
-- dbrpc/task_group.cpp: when `run_main_task` ends.
use mathlib.Core.Path.{subst}
use brpc_source_code_analysi.Prelude.{
  ℕ, zero, suc, ◌≡◌, refl, sym, ap, ◌<◌, true, [], arith, inl, inr, Bool-cases, Option-cases,
}
use brpc_source_code_analysi.Queues.{WorkStealingQueue, RemoteTaskQueue}
use brpc_source_code_analysi.Control.Signal.{parking_lot_num}
use brpc_source_code_analysi.Sched.Runner.{Ended, quits, left, unfinished}
use brpc_source_code_analysi.Worker.Lot.{ParkingLot}
use brpc_source_code_analysi.Worker.Wait
use brpc_source_code_analysi.Worker.Wait.{
  Shared, Waited, task, lot_stopped, asleep, group_steal_task, wait_task,
}
use brpc_source_code_analysi.Worker.Stop.{Stopping, stop_and_join}
use brpc_source_code_analysi.Worker.Stopped.{StaysStopped, Drains, stop_and_join-Drains}
use brpc_source_code_analysi.Worker.Main.{
  Main, MainEnded, main_ended, Outside, switch_to, run_on_main_stack, charge_idle, after_runner,
  wait_in, run_waited, run_main_task,
}

module _ (W : WorkStealingQueue) (R : RemoteTaskQueue) (L : ParkingLot) where
  wait_task-stopped :
      (until_wait_ends meanwhile : ℕ → Shared W R L → Shared W R L) (g offset fuel round : ℕ)
      (s s' : Shared W R L)
      → wait_task W R L until_wait_ends meanwhile g offset fuel round s ≡ (s', lot_stopped)
      → L.stopped s'.last_pl_state ≡ true
  unfolding wait_task
  wait_task-stopped until_wait_ends meanwhile g offset zero round s s' e = absurd (ground arith)
  wait_task-stopped until_wait_ends meanwhile g offset (suc fuel) round s s' e =
      let u = until_wait_ends round s in
      elim (Bool-cases (L.stopped s.last_pl_state)) [
        | inl marked ↦ ground (arith, marked)
        | inr going ↦ elim (Bool-cases (L.equal u.lot u.last_pl_state)) [
          | inl same_state ↦ absurd (ground (arith, going, same_state))
          | inr differs ↦
              elim (Option-cases (group_steal_task W R L (meanwhile round) g offset u).1) [
                | inr (tid, got) ↦ absurd (ground (arith, going, differs, got))
                | inl nothing ↦
                    wait_task-stopped until_wait_ends meanwhile g offset fuel (suc round)
                      (group_steal_task W R L (meanwhile round) g offset u).0 s'
                      (ground (arith, going, differs, nothing))
              ]
        ]
      ]

  -- The state in which the loop ended, before the time since the last switch was charged.
  pub record EndedFrom (o : Outside W R L) (m' : Main W R L) : Type 0 where
    pub at_end : Main W R L
    pub last_round : ℕ
    pub saw_stop : L.stopped at_end.shared.last_pl_state ≡ true
    pub charged : m' ≡ charge_idle W R L (o.now last_round) at_end

  waited-EndedFrom :
      (o : Outside W R L) (g offset round : ℕ) (m m' : Main W R L) (how : Waited)
      (rest : Main W R L → Main W R L × MainEnded)
      → ((x : Main W R L) → rest x ≡ (m', main_ended) → EndedFrom o m')
      → (how ≡ lot_stopped → L.stopped m.shared.last_pl_state ≡ true)
      → run_waited W R L o round how m rest ≡ (m', main_ended)
      → EndedFrom o m'
  waited-EndedFrom o g offset round m m' (task tid) rest ih stop e =
      go (run_on_main_stack W R L o (switch_to W R L o round tid m)) e
    where
      go :
          (ran : Main W R L × Ended)
          → after_runner W R L ran (rest ran.0) ≡ (m', main_ended)
          → EndedFrom o m'
      go (x, quits) e = ih x e
      go (x, left) e = absurd (ground arith)
      go (x, unfinished) e = absurd (ground arith)
  waited-EndedFrom o g offset round m m' lot_stopped rest ih stop e = record {
    at_end = m;
    last_round = round;
    saw_stop = stop refl;
    charged = sym (ap (λ (r : Main W R L × MainEnded). r.0) e);
  }
  waited-EndedFrom o g offset round m m' asleep rest ih stop e = absurd (ground arith)
  waited-EndedFrom o g offset round m m' Wait.unfinished rest ih stop e = absurd (ground arith)

  -- `run_main_task` returns only when the state of the parking lot that the worker saved is stopped, and
  -- then the time since the last switch has been charged to the task that runs, and nothing else has
  -- changed at the end.
  pub run_main_task-EndedFrom :
      (o : Outside W R L) (g offset fuel round : ℕ) (m m' : Main W R L)
      → run_main_task W R L o g offset fuel round m ≡ (m', main_ended)
      → EndedFrom o m'
  unfolding run_main_task
  run_main_task-EndedFrom o g offset zero round m m' e = absurd (ground arith)
  run_main_task-EndedFrom o g offset (suc fuel) round m m' e =
      let waited = wait_in W R L o g offset round m in
      waited-EndedFrom o g offset round (record m { shared = waited.0 }) m' waited.1
        (run_main_task W R L o g offset fuel (suc round))
        (λ x e'. run_main_task-EndedFrom o g offset fuel (suc round) x m' e')
        (λ stop.
          wait_task-stopped (o.until_wait_ends round) (o.meanwhile round) g offset o.wait_rounds 0
            m.shared waited.0 (ap (λ (k : Waited). (waited.0, k)) stop))
        e

  -- The wait of one round, when the control is stopped.
  drained-ends :
      (o : Outside W R L) (g offset fuel round : ℕ) (m : Main W R L) (u : Shared W R L)
      → R.contents (u.queues.remote_rq g) ≡ []
      → Drains W R L
          (o.until_wait_ends round)
          (o.meanwhile round)
          g
          offset
          u
          (wait_in W R L o g offset round m)
      → (m' : Main W R L) × (run_main_task W R L o g offset (suc fuel) round m ≡ (m', main_ended))
  unfolding run_main_task
  drained-ends o g offset fuel round m u empty (inl stop) = (
    charge_idle W R L (o.now round) (record m { shared = (wait_in W R L o g offset round m).0 }),
    rw stop refl,
  )
  drained-ends o g offset fuel round m u empty (inr (tid, has, found)) =
      absurd (ground (arith, has, empty))

  -- After `stop_and_join` the worker leaves its main loop: once its own remote queue is empty,
  -- `run_main_task` returns from the wait that it is in, without running another task. The lot of the
  -- worker is one of the four, the other threads do not restart a control, and `wait_task` is given two
  -- rounds.
  pub run_main_task-stops :
      (o : Outside W R L) (g offset fuel round num_workers lot more : ℕ) (c : Stopping L)
      (m : Main W R L)
      → StaysStopped W R L (o.until_wait_ends round) (o.meanwhile round) g offset
      → o.wait_rounds ≡ suc (suc more)
      → lot < parking_lot_num
      → m.shared.lot ≡ (stop_and_join L num_workers c).lots lot
      → m.shared.table ≡ (stop_and_join L num_workers c).table
      → R.contents ((o.until_wait_ends round 0 m.shared).queues.remote_rq g) ≡ []
      → (m' : Main W R L) × (run_main_task W R L o g offset (suc fuel) round m ≡ (m', main_ended))
  run_main_task-stops o g offset fuel round num_workers lot more c m stays rounds lt at_lot at_table
        empty =
      drained-ends o g offset fuel round m (o.until_wait_ends round 0 m.shared) empty (
        subst
          (λ (k : ℕ).
            Drains W R L (o.until_wait_ends round) (o.meanwhile round) g offset
              (o.until_wait_ends round 0 m.shared)
              (wait_task W R L (o.until_wait_ends round) (o.meanwhile round) g offset k 0 m.shared))
          (sym rounds)
          (stop_and_join-Drains W R L (o.until_wait_ends round) (o.meanwhile round) g offset
            num_workers lot more 0 c m.shared stays lt at_lot at_table))
