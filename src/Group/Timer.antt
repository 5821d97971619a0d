-- ===== src/Group/Timer.antt =====
-- dbrpc/task_group.cpp: `ready_to_run_from_timer_thread`, the callback of the timer for a sleeping
-- bthread.
--
-- `groups` are the groups of the control by their addresses, and `others` is what other threads do to
-- a group while its queue is full.
use mathlib.Core.Path.{subst}
use brpc_source_code_analysi.Prelude.{
  ℕ, ◌≡◌, ◌≢◌, sym, ◌<◌, inl, inr, false, Option, none, some, update, arith, true, dec_lt, ==_refl,
  Option-cases,
}
use brpc_source_code_analysi.Queues.{WorkStealingQueue, RemoteTaskQueue}
use brpc_source_code_analysi.Control.Groups.{Groups, choose_one_group}
use brpc_source_code_analysi.Control.History.{IsNew, TableHistory, TableHistory-IsTable}
use brpc_source_code_analysi.Group.Ready.{
  TaskGroup, push_remote_rq, announce_remote, ready_to_run_remote,
}
use brpc_source_code_analysi.Group.Starts.{HasRoom, IsNewestRemote, ready_to_run_remote_progress}

module _ (W : WorkStealingQueue) (R : RemoteTaskQueue) where
  -- The groups afterwards; a call on the NULL that `choose_one_group` answered; or not within the
  -- rounds given.
  pub data TimerEnd : Type 0 where
    made_ready : (groups : ℕ → TaskGroup W R) → TimerEnd
    null_group still_full : TimerEnd

  abbrev queued_in : (groups : ℕ → TaskGroup W R) → ℕ → Option (TaskGroup W R) → TimerEnd
  queued_in groups g none = still_full
  queued_in groups g (some g') = made_ready (update groups g g')

  unfoldable pub ready_to_run_from_timer_thread :
      (fast_rand_less_than : ℕ → ℕ) (others : ℕ → TaskGroup W R → TaskGroup W R) (fuel tid : ℕ)
      → Groups
      → (ℕ → TaskGroup W R)
      → TimerEnd
  ready_to_run_from_timer_thread fast_rand_less_than others fuel tid t groups =
      elim (choose_one_group fast_rand_less_than t) [
        | none ↦ null_group
        | some g ↦ queued_in groups g (ready_to_run_remote W R others fuel tid false (groups g))
      ]

  -- How the callback goes with a table: there is no group to ask; or the task is the newest of the
  -- remote queue of a group in use, no task of that queue is left unannounced, and the other groups
  -- are as they were.
  pub data Woken (tid : ℕ) (t : Groups) (groups : ℕ → TaskGroup W R) : TimerEnd → Type 0 where
    no_group_left : t.ngroup ≡ 0 → Woken tid t groups null_group
    woken_in :
        (i g : ℕ) (groups' : ℕ → TaskGroup W R)
        → i < t.ngroup
        → t.groups i ≡ some g
        → IsNewestRemote W R tid (groups' g)
        → (groups' g).remote_num_nosignal ≡ 0
        → ((a : ℕ) → a ≢ g → groups' a ≡ groups a)
        → Woken tid t groups (made_ready groups')

  announced :
      (others : ℕ → TaskGroup W R → TaskGroup W R) (fuel tid : ℕ) (g g' : TaskGroup W R)
      → ready_to_run_remote W R others fuel tid false g ≡ some g'
      → g'.remote_num_nosignal ≡ 0
  unfolding ready_to_run_remote announce_remote
  announced others fuel tid g g' e = elim (Option-cases (push_remote_rq W R others fuel 0 tid g)) [
    | inl full ↦ absurd (ground (arith, e, full))
    | inr (pushed, found) ↦ ground (arith, e, found)
  ]

  empty-Woken :
      (fast_rand_less_than : ℕ → ℕ) (others : ℕ → TaskGroup W R → TaskGroup W R) (fuel tid : ℕ)
      (t : Groups) (groups : ℕ → TaskGroup W R)
      → t.ngroup ≡ 0
      → ready_to_run_from_timer_thread fast_rand_less_than others fuel tid t groups ≡ null_group
  unfolding ready_to_run_from_timer_thread choose_one_group
  empty-Woken fast_rand_less_than others fuel tid t groups empty = ground (arith, empty)

  chosen :
      (fast_rand_less_than : ℕ → ℕ) (others : ℕ → TaskGroup W R → TaskGroup W R) (fuel tid g : ℕ)
      (t : Groups) (groups : ℕ → TaskGroup W R) (g' : TaskGroup W R)
      → 0 < t.ngroup
      → t.groups (fast_rand_less_than t.ngroup) ≡ some g
      → ready_to_run_remote W R others fuel tid false (groups g) ≡ some g'
      → ready_to_run_from_timer_thread fast_rand_less_than others fuel tid t groups
        ≡ made_ready (update groups g g')
  unfolding ready_to_run_from_timer_thread choose_one_group
  chosen fast_rand_less_than others fuel tid g t groups g' some_group here pushed =
      ground (arith, some_group, here, pushed)

  -- After any additions of new groups, removals and stops, from the table of a new control, when within
  -- the rounds given each remote queue gets room: the callback makes the bthread ready, as the newest
  -- of the remote queue of a group in use, with nothing left unannounced there and the other groups
  -- untouched; or no group is in use, as after a stop, and it calls on NULL.
  pub timer_thread-Woken :
      (max_concurrency : ℕ) (fast_rand_less_than : ℕ → ℕ)
      (others : ℕ → TaskGroup W R → TaskGroup W R) (k fuel tid : ℕ) {t t' : Groups}
      (groups : ℕ → TaskGroup W R)
      → ((n : ℕ) → 0 < n → fast_rand_less_than n < n)
      → IsNew t
      → TableHistory max_concurrency t t'
      → ((g : ℕ) → HasRoom W R true others k (groups g))
      → k < fuel
      → Woken tid t' groups
          (ready_to_run_from_timer_thread fast_rand_less_than others fuel tid t' groups)
  timer_thread-Woken max_concurrency fast_rand_less_than others k fuel tid {t} {t'} groups below new
        history room lt =
      let v = (TableHistory-IsTable max_concurrency fast_rand_less_than below new history).0 in
      elim (dec_lt 0 t'.ngroup) [
        | no empty ↦
            subst (Woken tid t' groups)
              (sym
                (empty-Woken fast_rand_less_than others fuel tid t' groups (omega (arith, empty))))
              (no_group_left (omega (arith, empty)))
        | yes some_group ↦
            let i = fast_rand_less_than t'.ngroup in
            let (g, here) = v.filled i (below t'.ngroup some_group) in
            let (g', pushed, newest) =
              ready_to_run_remote_progress W R others k fuel tid false (groups g) (room g) lt in
            subst (Woken tid t' groups)
              (sym
                (chosen fast_rand_less_than others fuel tid g t' groups g' some_group here pushed))
              (woken_in i g (update groups g g') (below t'.ngroup some_group) here
                (rw (==_refl g) newest)
                (rw (==_refl g) (announced others fuel tid (groups g) g' pushed))
                (λ a other. ground (arith, other)))
      ]
