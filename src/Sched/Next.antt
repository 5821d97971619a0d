-- ===== src/Sched/Next.antt =====
-- dbrpc/task_group.cpp: which task `sched` and `ending_sched` take.
use brpc_source_code_analysi.Prelude.{
  ℕ, ◌≡◌, ◌⊎◌, arith, Option, none, some, [], ◌∷◌, ◌++◌, inl, inr, Option-cases,
}
use brpc_source_code_analysi.Queues.{WorkStealingQueue}
use brpc_source_code_analysi.Sched.Switch.{choose_next}

-- Tasks of the own queue are taken newest first, and nothing else changes in the queue; only when it
-- is empty a stolen task is taken, and the main task only when nothing could be stolen.
pub choose_next-order :
    (W : WorkStealingQueue) (stolen : Option ℕ) (main_tid : ℕ) (rq : W.Queue)
    → let (rq', tid) = choose_next W stolen main_tid rq in
      (W.contents rq ≡ W.contents rq' ++ tid ∷ [])
      ⊎ ((W.contents rq ≡ []) × (rq' ≡ rq) × (stolen ≡ some tid))
      ⊎ ((W.contents rq ≡ []) × (rq' ≡ rq) × (stolen ≡ none) × (tid ≡ main_tid))
unfolding choose_next
choose_next-order W stolen main_tid rq = elim (Option-cases (W.pop rq)) [
  | inl empty ↦
      let nothing = W.pop-none rq empty in
      elim (Option-cases stolen) [
        | inl idle ↦
            inr (inr (nothing, ground (arith, empty, idle), idle, ground (arith, empty, idle)))
        | inr (tid, got) ↦
            inr (inl (nothing, ground (arith, empty, got), ground (arith, empty, got)))
      ]
  | inr ((tid, rq'), popped) ↦ inl (rw (popped, choose_next) (W.pop-some tid rq rq' popped))
]
