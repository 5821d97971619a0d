-- ===== src/Control/Idle.antt =====
-- dbrpc/task_control.cpp: a steal that finds nothing.
use mathlib.Core.Path.{subst}
use native.Mathlib.Nat.{mod-eq_of_lt}
use brpc_source_code_analysi.Prelude.{
  ℕ, zero, suc, ◌≡◌, ◌+◌, ◌*◌, ◌%◌, ◌^◌, ◌≤◌, ◌<◌, sym, Option, none, some, [], arith, inl, inr,
  Option-cases,
}
use brpc_source_code_analysi.Queues.{WorkStealingQueue, RemoteTaskQueue}
use brpc_source_code_analysi.Control.Groups.{Groups}
use brpc_source_code_analysi.Control.Steal.{
  RunQueues, try_group, try_slot, steal_loop, steal_task, u64,
}
use brpc_source_code_analysi.Control.Coverage.{visits_every_slot}

module _ (W : WorkStealingQueue) (R : RemoteTaskQueue) where
  -- Neither queue of the group holds a task.
  pub record IsIdle (g : ℕ) (qs : RunQueues W R) : Type 0 where
    pub no_local : W.contents (qs.rq g) ≡ []
    pub no_remote : R.contents (qs.remote_rq g) ≡ []

  abbrev pub IsIdleSlot : Option ℕ → RunQueues W R → Type 0
  IsIdleSlot none qs = Unit {0}
  IsIdleSlot (some g) qs = IsIdle g qs

  try_group-none : (g : ℕ) (qs : RunQueues W R) → try_group W R g qs ≡ none → IsIdle g qs
  unfolding try_group
  try_group-none g qs e = elim (Option-cases (W.steal (qs.rq g))) [
    | inl empty ↦ elim (Option-cases (R.pop (qs.remote_rq g))) [
      | inl empty' ↦ record {
        no_local = W.steal-none (qs.rq g) empty;
        no_remote = R.pop-none (qs.remote_rq g) empty';
      }
      | inr ((t, q), found) ↦ absurd (ground arith)
    ]
    | inr ((t, q), found) ↦ absurd (ground arith)
  ]

  try_slot-none :
      (slot : Option ℕ) (qs : RunQueues W R) → try_slot W R slot qs ≡ none → IsIdleSlot slot qs
  try_slot-none none qs e = tt
  try_slot-none (some g) qs e = try_group-none g qs e

  module _ (left offset s : ℕ) (t : Groups) (qs : RunQueues W R)
      (e : (steal_loop W R (suc left) offset s t qs).task ≡ none) where
    first_round-none : try_slot W R (t.groups (s % t.ngroup)) qs ≡ none
    unfolding steal_loop
    first_round-none = elim (Option-cases (try_slot W R (t.groups (s % t.ngroup)) qs)) [
      | inl empty ↦ empty
      | inr ((tid, qs'), found) ↦ absurd (ground arith)
    ]

    next_rounds-none : (steal_loop W R left offset (u64 (s + offset)) t qs).task ≡ none
    unfolding steal_loop
    next_rounds-none = ground (arith, first_round-none)

  -- The rounds look at the slots `s`, `s + offset`, … as long as the seed does not wrap around.
  steal_loop-none :
      (left offset s : ℕ) (t : Groups) (qs : RunQueues W R)
      → s + left * offset < 2 ^ 64
      → (steal_loop W R left offset s t qs).task ≡ none
      → (i : ℕ) → i < left
      → IsIdleSlot (t.groups ((s + i * offset) % t.ngroup)) qs
  steal_loop-none zero offset s t qs wrap e i lt = absurd (omega (arith, lt))
  steal_loop-none (suc left) offset s t qs wrap e zero lt =
      subst (λ (k : ℕ). IsIdleSlot (t.groups (k % t.ngroup)) qs) (omega arith)
        (try_slot-none (t.groups (s % t.ngroup)) qs (first_round-none left offset s t qs e))
  steal_loop-none (suc left) offset s t qs wrap e (suc i) lt =
      let next : u64 (s + offset) ≡ s + offset = mod-eq_of_lt (omega (arith, wrap)) in
      subst (λ (k : ℕ). IsIdleSlot (t.groups (k % t.ngroup)) qs) (omega arith)
        (steal_loop-none left offset (s + offset) t qs (omega (arith, wrap))
          (subst (λ (k : ℕ). (steal_loop W R left offset k t qs).task ≡ none) next
            (next_rounds-none left offset s t qs e))
          i (omega (arith, lt)))

  -- `steal_task` fails only if the queues of every group in the table were empty, provided that the
  -- offset has an inverse modulo the number of groups and that the seed does not wrap around.
  pub steal_task-none :
      (seed offset inv : ℕ) (t : Groups) (qs : RunQueues W R)
      → (offset * inv) % t.ngroup ≡ 1 % t.ngroup
      → seed + t.ngroup * offset < 2 ^ 64
      → (steal_task W R seed offset t qs).task ≡ none
      → (j g : ℕ) → j < t.ngroup
      → t.groups j ≡ some g
      → IsIdle g qs
  unfolding steal_task
  steal_task-none seed offset inv t qs unit wrap e j g lt slot =
      let (i, li, at) = visits_every_slot t.ngroup seed offset inv j unit lt in
      let e' : (steal_loop W R t.ngroup offset seed t qs).task ≡ none = ground (arith, e, lt) in
      let idle = steal_loop-none t.ngroup offset seed t qs wrap e' i li in
      subst (λ (o : Option ℕ). IsIdleSlot o qs) slot
        (subst (λ (k : ℕ). IsIdleSlot (t.groups k) qs) at idle)

  -- No group in the first `n` slots has a task in a run queue.
  abbrev pub AreIdle : ℕ → Groups → RunQueues W R → Type 0
  AreIdle zero t qs = Unit {0}
  AreIdle (suc n) t qs = IsIdleSlot (t.groups n) qs × AreIdle n t qs

  pub steal_task-AreIdle :
      (seed offset inv n : ℕ) (t : Groups) (qs : RunQueues W R)
      → (offset * inv) % t.ngroup ≡ 1 % t.ngroup
      → seed + t.ngroup * offset < 2 ^ 64
      → (steal_task W R seed offset t qs).task ≡ none
      → n ≤ t.ngroup
      → AreIdle n t qs
  steal_task-AreIdle seed offset inv zero t qs unit wrap e le = tt
  steal_task-AreIdle seed offset inv (suc n) t qs unit wrap e le = (
    elim (Option-cases (t.groups n)) [
      | inl empty ↦ subst (λ (o : Option ℕ). IsIdleSlot o qs) (sym empty) tt
      | inr (g, here) ↦
          subst (λ (o : Option ℕ). IsIdleSlot o qs) (sym here)
            (steal_task-none seed offset inv t qs unit wrap e n g le here)
    ],
    steal_task-AreIdle seed offset inv n t qs unit wrap e (omega (arith, le)),
  )
