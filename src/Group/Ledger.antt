-- ===== src/Group/Ledger.antt =====
-- dbrpc/task_group.cpp: the tasks pushed, and their announcements.
use brpc_source_code_analysi.Prelude.{
  ◌⊎◌, Bool-cases, true, ℕ, zero, suc, ◌≡◌, refl, ap, ◌+◌, Bool, some, List, [], ◌∷◌, arith,
  Option-cases, inl, inr,
}
use mathlib.Core.Path.{subst}
use mathlib.Core.Option.{some-injective}
use brpc_source_code_analysi.Queues.{WorkStealingQueue, RemoteTaskQueue}
use brpc_source_code_analysi.Group.Ready.{
  TaskGroup, flush_nosignal_tasks, push_rq, announce, ready_to_run,
  flush_nosignal_tasks_remote_locked, push_remote_rq, announce_remote, ready_to_run_remote,
}

abbrev pub total : List ℕ → ℕ
total [] = 0
total (n ∷ ns) = n + total ns

module _ (W : WorkStealingQueue) (R : RemoteTaskQueue) where
  -- The tasks of the own queue, and of the remote queue, that were announced or are still to be.
  abbrev pub local_tasks : TaskGroup W R → ℕ
  local_tasks g = g.nsignaled + g.num_nosignal

  abbrev pub remote_tasks : TaskGroup W R → ℕ
  remote_tasks g = g.remote_nsignaled + g.remote_num_nosignal

  -- The counters say how many tasks were announced to the control.
  abbrev pub IsSettled : TaskGroup W R → Type 0
  IsSettled g = total g.signals ≡ g.nsignaled + g.remote_nsignaled

  -- While a caller sleeps, the others may take tasks out of the queues. They do not change the
  -- counters.
  pub record OnlyTakes (others : ℕ → TaskGroup W R → TaskGroup W R) : Type 0 where
    pub same_num : (i : ℕ) (g : TaskGroup W R) → (others i g).num_nosignal ≡ g.num_nosignal
    pub same_nsignaled : (i : ℕ) (g : TaskGroup W R) → (others i g).nsignaled ≡ g.nsignaled
    pub same_remote_num :
        (i : ℕ) (g : TaskGroup W R) → (others i g).remote_num_nosignal ≡ g.remote_num_nosignal
    pub same_remote_nsignaled :
        (i : ℕ) (g : TaskGroup W R) → (others i g).remote_nsignaled ≡ g.remote_nsignaled
    pub same_signals : (i : ℕ) (g : TaskGroup W R) → (others i g).signals ≡ g.signals

  -- From `g` to `g'`: `locals` and `remotes` tasks more, and no announcement missing.
  pub record Counted (locals remotes : ℕ) (g g' : TaskGroup W R) : Type 0 where
    pub more_local : local_tasks g' ≡ local_tasks g + locals
    pub more_remote : remote_tasks g' ≡ remote_tasks g + remotes
    pub settled : IsSettled g → IsSettled g'

  pub Counted-trans :
      {a b c d : ℕ} {g g' g'' : TaskGroup W R}
      → Counted a b g g'
      → Counted c d g' g''
      → Counted (a + c) (b + d) g g''
  Counted-trans p q = record {
    more_local = omega (arith, p.more_local, q.more_local);
    more_remote = omega (arith, p.more_remote, q.more_remote);
    settled = λ h. q.settled (p.settled h);
  }

  pub Counted-step :
      {n m a b n' m' : ℕ} {g g' g'' : TaskGroup W R}
      → Counted a b g' g''
      → n' ≡ n + a
      → m' ≡ m + b
      → Counted n m g g'
      → Counted n' m' g g''
  Counted-step q e f p = record {
    more_local = omega (arith, p.more_local, q.more_local);
    more_remote = omega (arith, p.more_remote, q.more_remote);
    settled = λ h. q.settled (p.settled h);
  }

  others-Counted :
      (others : ℕ → TaskGroup W R → TaskGroup W R) (i : ℕ) (g : TaskGroup W R)
      → OnlyTakes others
      → Counted 0 0 g (others i g)
  others-Counted others i g o = ground (
    arith,
    o.same_num i g,
    o.same_nsignaled i g,
    o.same_remote_num i g,
    o.same_remote_nsignaled i g,
    o.same_signals i g,
    ap total (o.same_signals i g),
  )

  -- A flush announces what was only counted, and leaves nothing to announce.
  pub flush-Counted :
      (g : TaskGroup W R)
      → Counted 0 0 g (flush_nosignal_tasks W R g) × ((flush_nosignal_tasks W R g).num_nosignal ≡ 0)
  unfolding flush_nosignal_tasks
  flush-Counted g = ground arith

  pub flush_remote-Counted :
      (g : TaskGroup W R)
      → Counted 0 0 g (flush_nosignal_tasks_remote_locked W R g)
        × ((flush_nosignal_tasks_remote_locked W R g).remote_num_nosignal ≡ 0)
  unfolding flush_nosignal_tasks_remote_locked
  flush_remote-Counted g = ground arith

  push_rq-Counted :
      (others : ℕ → TaskGroup W R → TaskGroup W R) (fuel round tid : ℕ) (g g' : TaskGroup W R)
      → OnlyTakes others
      → push_rq W R others fuel round tid g ≡ some g'
      → Counted 0 0 g g'
  unfolding push_rq
  push_rq-Counted others zero round tid g g' o e = cc
  push_rq-Counted others (suc fuel) round tid g g' o e = elim (Option-cases (W.push tid g.rq)) [
    | inl full ↦ Counted-trans (flush-Counted g).0 (
        Counted-trans (others-Counted others round (flush_nosignal_tasks W R g) o) (
          push_rq-Counted others fuel (suc round) tid (others round (flush_nosignal_tasks W R g)) g'
            o (rw (full, push_rq) at e)))
    | inr (q, room) ↦ ground arith
  ]

  announce-Counted : (nosignal : Bool) (g : TaskGroup W R) → Counted 1 0 g (announce W R nosignal g)
  unfolding announce
  announce-Counted nosignal g = ground arith

  announce_remote-Counted :
      (nosignal : Bool) (g : TaskGroup W R) → Counted 0 1 g (announce_remote W R nosignal g)
  unfolding announce_remote
  announce_remote-Counted nosignal g = ground arith

  push_remote_rq-Counted :
      (others : ℕ → TaskGroup W R → TaskGroup W R) (fuel round tid : ℕ) (g g' : TaskGroup W R)
      → OnlyTakes others
      → push_remote_rq W R others fuel round tid g ≡ some g'
      → Counted 0 0 g g'
  unfolding push_remote_rq
  push_remote_rq-Counted others zero round tid g g' o e = cc
  push_remote_rq-Counted others (suc fuel) round tid g g' o e =
      elim (Option-cases (R.push_locked tid g.remote_rq)) [
        | inl full ↦ Counted-trans (flush_remote-Counted g).0 (
            Counted-trans (others-Counted others round (flush_nosignal_tasks_remote_locked W R g) o)
              (push_remote_rq-Counted others fuel (suc round) tid
                (others round (flush_nosignal_tasks_remote_locked W R g)) g' o
                (rw (full, push_remote_rq) at e)))
        | inr (q, room) ↦ ground arith
      ]

  -- A task made ready by its own worker is counted once, and unless NOSIGNAL was asked for, nothing
  -- is left to announce afterwards. The push succeeds, and the other workers only take tasks.
  pub ready_to_run-Counted :
      (others : ℕ → TaskGroup W R → TaskGroup W R) (fuel tid : ℕ) (nosignal : Bool)
      (g g' : TaskGroup W R)
      → OnlyTakes others
      → ready_to_run W R others fuel tid nosignal g ≡ some g'
      → Counted 1 0 g g' × ((nosignal ≡ true) ⊎ (g'.num_nosignal ≡ 0))
  unfolding ready_to_run
  ready_to_run-Counted others fuel tid nosignal g g' o e =
      elim (Option-cases (push_rq W R others fuel 0 tid g)) [
        | inl stuck ↦ absurd (ground arith)
        | inr (g1, pushed) ↦
            let done : announce W R nosignal g1 ≡ g' =
              some-injective _ _ (rw (pushed, ready_to_run) at e) in
            (
              subst (Counted 1 0 g) done (
                  Counted-trans (push_rq-Counted others fuel 0 tid g g1 o pushed)
                    (announce-Counted nosignal g1)),
              elim (Bool-cases nosignal) [
                | inl quiet ↦ inl quiet
                | inr asked ↦ inr (
                    subst (λ (k : TaskGroup W R). k.num_nosignal ≡ 0) done
                      (rw asked (unfold announce in refl)))
              ],
            )
      ]

  pub ready_to_run_remote-Counted :
      (others : ℕ → TaskGroup W R → TaskGroup W R) (fuel tid : ℕ) (nosignal : Bool)
      (g g' : TaskGroup W R)
      → OnlyTakes others
      → ready_to_run_remote W R others fuel tid nosignal g ≡ some g'
      → Counted 0 1 g g'
  unfolding ready_to_run_remote
  ready_to_run_remote-Counted others fuel tid nosignal g g' o e =
      elim (Option-cases (push_remote_rq W R others fuel 0 tid g)) [
        | inl stuck ↦ absurd (ground arith)
        | inr (g1, pushed) ↦
            subst (Counted 0 1 g) (some-injective _ _ (rw (pushed, ready_to_run_remote) at e)) (
              Counted-trans (push_remote_rq-Counted others fuel 0 tid g g1 o pushed)
                (announce_remote-Counted nosignal g1))
      ]
