-- ===== src/Control/Took.antt =====
-- dbrpc/task_control.cpp: a task that a steal finds, and what the steal leaves.
use mathlib.Core.Path.{subst}
use mathlib.Core.Option.{some-injective}
use native.Mathlib.Nat.{mod-lt}
use brpc_source_code_analysi.Prelude.{
  ℕ, zero, suc, ◌≡◌, refl, sym, ap, ◌∙◌, ◌+◌, ◌%◌, ◌<◌, ◌==◌, false, Option, none, some, [], ◌∷◌,
  arith, inl, inr, Bool-cases, Option-cases, update, ==_refl,
}
use brpc_source_code_analysi.Queues.{WorkStealingQueue, RemoteTaskQueue}
use brpc_source_code_analysi.Control.Groups.{Groups}
use brpc_source_code_analysi.Control.Steal.{
  RunQueues, Stolen, try_group, try_slot, steal_loop, steal_task, u64,
}

module _ (W : WorkStealingQueue) (R : RemoteTaskQueue) where
  -- One task fewer at the front of one queue of a group, and all other queues the same.
  pub data Took (tid g : ℕ) (qs qs' : RunQueues W R) : Type 0 where
    from_rq :
        W.contents (qs.rq g) ≡ tid ∷ W.contents (qs'.rq g)
        → ((k : ℕ) → (g == k) ≡ false → qs'.rq k ≡ qs.rq k)
        → qs'.remote_rq ≡ qs.remote_rq
        → Took tid g qs qs'
    from_remote :
        W.contents (qs.rq g) ≡ []
        → R.contents (qs.remote_rq g) ≡ tid ∷ R.contents (qs'.remote_rq g)
        → ((k : ℕ) → (g == k) ≡ false → qs'.remote_rq k ≡ qs.remote_rq k)
        → qs'.rq ≡ qs.rq
        → Took tid g qs qs'

  abbrev TookBy : ℕ → RunQueues W R → ℕ × RunQueues W R → Type 0
  TookBy g qs (tid, qs') = Took tid g qs qs'

  try_group-Took :
      (g tid : ℕ) (qs qs' : RunQueues W R)
      → try_group W R g qs ≡ some (tid, qs')
      → Took tid g qs qs'
  unfolding try_group
  try_group-Took g tid qs qs' e = elim (Option-cases (W.steal (qs.rq g))) [
    | inr ((t, q), found) ↦
        subst (TookBy g qs) {x = (t, record qs { rq = update qs.rq g q })} {y = (tid, qs')}
          (some-injective _ _ (rw (found, try_group) at e))
          (from_rq (rw (==_refl g) (W.steal-some t (qs.rq g) q found)) (λ k h. rw h refl) refl)
    | inl empty ↦ elim (Option-cases (R.pop (qs.remote_rq g))) [
      | inr ((t, q), found) ↦
          subst (TookBy g qs) {x = (t, record qs { remote_rq = update qs.remote_rq g q })}
            {y = (tid, qs')} (some-injective _ _ (rw (empty, found, try_group) at e))
            (from_remote (W.steal-none (qs.rq g) empty)
              (rw (==_refl g) (R.pop-some t (qs.remote_rq g) q found)) (λ k h. rw h refl) refl)
      | inl empty' ↦ absurd (ground arith)
    ]
  ]

  module _ (left offset s : ℕ) (t : Groups) (qs : RunQueues W R) where
    loop_hit :
        (x : ℕ) (qs' : RunQueues W R)
        → try_slot W R (t.groups (s % t.ngroup)) qs ≡ some (x, qs')
        → steal_loop W R (suc left) offset s t qs ≡ record { task = some x; seed = s; queues = qs' }
    unfolding steal_loop
    loop_hit x qs' e = rw (e, steal_loop)

    loop_miss :
        try_slot W R (t.groups (s % t.ngroup)) qs ≡ none
        → steal_loop W R (suc left) offset s t qs
          ≡ steal_loop W R left offset (u64 (s + offset)) t qs
    unfolding steal_loop
    loop_miss e = rw (e, steal_loop)

  -- A group of the table from which the task of a steal came.
  abbrev pub Source : Groups → RunQueues W R → ℕ → RunQueues W R → Type 0
  Source t qs tid qs' =
      (j : ℕ) × (g : ℕ) × (j < t.ngroup) × (t.groups j ≡ some g) × Took tid g qs qs'

  slot-Source :
      (t : Groups) (qs qs' : RunQueues W R) (j tid : ℕ) (slot : Option ℕ)
      → j < t.ngroup
      → t.groups j ≡ slot
      → try_slot W R slot qs ≡ some (tid, qs')
      → Source t qs tid qs'
  slot-Source t qs qs' j tid none lt e found = absurd (cc)
  slot-Source t qs qs' j tid (some g) lt e found = (j, g, lt, e, try_group-Took g tid qs qs' found)

  steal_loop-Source :
      (left offset s tid : ℕ) (t : Groups) (qs : RunQueues W R)
      → 0 < t.ngroup
      → (steal_loop W R left offset s t qs).task ≡ some tid
      → Source t qs tid (steal_loop W R left offset s t qs).queues
  steal_loop-Source zero offset s tid t qs pos e = absurd (unfold steal_loop in cc)
  steal_loop-Source (suc left) offset s tid t qs pos e =
      elim (Option-cases (try_slot W R (t.groups (s % t.ngroup)) qs)) [
        | inr ((x, qs'), found) ↦
            let whole = loop_hit left offset s t qs x qs' found in
            let same_tid : x ≡ tid =
              some-injective _ _ (sym (ap (λ (r : Stolen W R). r.task) whole) ∙ e) in
            rw whole (
              subst (λ (k : ℕ). Source t qs k qs') same_tid
                (slot-Source t qs qs' (s % t.ngroup) x (t.groups (s % t.ngroup)) (mod-lt s pos) refl
                  found))
        | inl empty ↦
            let whole = loop_miss left offset s t qs empty in
            rw whole (
              steal_loop-Source left offset (u64 (s + offset)) tid t qs pos
                (sym (ap (λ (r : Stolen W R). r.task) whole) ∙ e))
      ]

  -- A task that `steal_task` finds was the oldest in a queue of some group in the table, and is the
  -- only one that was taken.
  pub steal_task-Source :
      (seed offset tid : ℕ) (t : Groups) (qs : RunQueues W R)
      → (steal_task W R seed offset t qs).task ≡ some tid
      → Source t qs tid (steal_task W R seed offset t qs).queues
  unfolding steal_task
  steal_task-Source seed offset tid t qs e = elim (Bool-cases (t.ngroup == 0)) [
    | inl empty ↦ absurd (ground arith)
    | inr some_group ↦
        let whole : steal_task W R seed offset t qs ≡ steal_loop W R t.ngroup offset seed t qs =
          rw (some_group, steal_task) in
        rw whole (
          steal_loop-Source t.ngroup offset seed tid t qs (ground (arith, some_group))
            (sym (ap (λ (r : Stolen W R). r.task) whole) ∙ e))
  ]
