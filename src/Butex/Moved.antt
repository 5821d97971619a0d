-- ===== src/Butex/Moved.antt =====
-- dbrpc/butex.cpp: the body of `butex_requeue`, seen through the specification.
use mathlib.Core.Path.{fun_ext, subst}
use mathlib.Core.List.{append-nil, append_assoc}
use brpc_source_code_analysi.Prelude.{
  ℕ, zero, suc, ◌≡◌, refl, sym, ap, ◌∙◌, ◌==◌, false, some, List, [], ◌∷◌, reverse, count,
  count-append, count-reverse, arith, Bool-cases, Option-cases, inl, inr, ==_eq, ==_refl,
}
use brpc_source_code_analysi.Butex.State.{Mem, Env, signalled_pthreads}
use brpc_source_code_analysi.Butex.Woken.{pthreads}
use brpc_source_code_analysi.Butex.Frame.{run_front-Frame}
use brpc_source_code_analysi.Butex.Order.{first, others}
use brpc_source_code_analysi.Butex.Wake.{pop_head, run_front}
use brpc_source_code_analysi.Butex.Wait.{requeue_rest, requeue_to}
use brpc_source_code_analysi.Butex.Requeue.{
  move_one, move_one-from, requeue_rest-step, requeue_rest-done, requeue_rest_self,
  requeue_rest-Untouched, run_front-moved,
}
use brpc_source_code_analysi.Butex.Spec.{Spec-ext, view, wake_up, moved_to}

-- The queues after one move more.
moved-one :
    (b to bw c : ℕ) (rest : List ℕ) (mem : Mem)
    → (b == to) ≡ false
    → mem.waiters b ≡ bw ∷ rest
    → moved_to b to ((move_one b to bw rest mem).waiters b) (move_one b to bw rest mem).waiters c
      ≡ moved_to b to (mem.waiters b) mem.waiters c
moved-one b to bw c rest mem ne e = elim (Bool-cases (to == c)) [
  | inl there ↦ ground (
    arith,
    there,
    ne,
    e,
    ==_refl b,
    move_one-from b to bw rest mem ne e,
    append_assoc (mem.waiters to) (bw ∷ []) rest,
  )
  | inr other ↦ ground (arith, other, ne, e)
]

requeue_rest-queues :
    (fuel b to : ℕ) (mem mem' : Mem)
    → requeue_rest fuel b to mem ≡ some mem'
    → (c : ℕ) → mem'.waiters c ≡ moved_to b to (mem.waiters b) mem.waiters c
unfolding requeue_rest
requeue_rest-queues zero b to mem mem' e c = cc
requeue_rest-queues (suc fuel) b to mem mem' e c =
    go (mem.waiters b) refl (λ mem1. requeue_rest-queues fuel b to mem1 mem')
  where
    go :
        (ws : List ℕ)
        → mem.waiters b ≡ ws
        → ((mem1 : Mem)
            → requeue_rest fuel b to mem1 ≡ some mem'
            → (c : ℕ) → mem'.waiters c ≡ moved_to b to (mem1.waiters b) mem1.waiters c)
        → mem'.waiters c ≡ moved_to b to (mem.waiters b) mem.waiters c
    go [] w ih =
        let same_mem : mem ≡ mem' = cc (requeue_rest-done fuel b to mem w) in
        subst (λ (x : Mem). x.waiters c ≡ moved_to b to (mem.waiters b) mem.waiters c) same_mem
          (elim (Bool-cases (to == c)) [
            | inl there ↦ ground (arith, there, w, append-nil (mem.waiters to), ==_eq to c there)
            | inr other ↦ ground (arith, other, w, ==_eq b c)
          ])
    go (bw ∷ rest) w ih = elim (Bool-cases (b == to)) [
      | inl one ↦
          absurd (ground (arith, ==_eq b to one, e, requeue_rest_self (suc fuel) b bw rest mem w))
      | inr ne ↦
          ih (move_one b to bw rest mem) (sym (requeue_rest-step fuel b to bw rest mem w) ∙ e) c
          ∙ moved-one b to bw c rest mem ne w
    ]

ran_front-view :
    (env : Env) (fuel b to front : ℕ) (rest : List ℕ) (m m1 : Mem)
    → m.waiters b ≡ front ∷ rest
    → requeue_rest fuel b to (pop_head b front rest m) ≡ some m1
    → view (run_front env front m1)
      ≡ wake_up (front ∷ []) (record (view m) { queue = moved_to b to rest m.waiters })
ran_front-view env fuel b to front rest m m1 w run =
    let popped = pop_head b front rest m in
    let f = run_front-Frame env front m1 in
    let u = requeue_rest-Untouched fuel b to popped m1 run in
    let a = run_front-moved env front popped m1 u in
    Spec-ext _ _ (f.same_value ∙ u.same_value)
      (fun_ext (λ c.
        ap (λ (q : ℕ → List ℕ). q c) f.same_waiters
        ∙ requeue_rest-queues fuel b to popped m1 run c
        ∙ ground (arith, ==_refl b)))
      (f.same_waiter ∙ u.same_waiter)
      (fun_ext (λ t. ap (count t) a.new_resumes ∙ count-append t _ _))
      (fun_ext (λ p. omega (
        arith,
        ap (count p) a.new_signals,
        count-append p (reverse (pthreads m.waiter (front ∷ []))) (signalled_pthreads m.calls),
        count-reverse p (pthreads m.waiter (front ∷ [])),
      )))

-- What the body does when it returns: the front is woken, the others come behind those of `to`.
pub requeue_to-view :
    (env : Env) (fuel b to n : ℕ) (m m' : Mem)
    → requeue_to env fuel b to m ≡ some (m', n)
    → view m'
      ≡ wake_up
          (first (m.waiters b))
          (record (view m) { queue = moved_to b to (others (m.waiters b)) m.waiters })
requeue_to-view env fuel b to n m m' e = go (m.waiters b) refl
  where
    go :
        (ws : List ℕ)
        → m.waiters b ≡ ws
        → view m'
          ≡ wake_up
              (first (m.waiters b))
              (record (view m) { queue = moved_to b to (others (m.waiters b)) m.waiters })
    go [] w =
        let same_mem : m ≡ m' = ground (arith, w, e) in
        ap view (sym same_mem)
        ∙ Spec-ext _ _ refl
            (fun_ext (λ c. elim (Bool-cases (to == c)) [
              | inl there ↦ ground (arith, there, w, append-nil (m.waiters to), ==_eq to c there)
              | inr other ↦ ground (arith, other, w, ==_eq b c)
            ]))
            refl (fun_ext (λ t. ground (arith, w))) (fun_ext (λ p. ground (arith, w)))
    go (front ∷ rest) w = elim (Option-cases (requeue_rest fuel b to (pop_head b front rest m))) [
      | inl stuck ↦ absurd (ground (arith, w, e, stuck))
      | inr (m1, run) ↦
          let same_mem : run_front env front m1 ≡ m' = ground (arith, w, e, run) in
          ap view (sym same_mem)
          ∙ ran_front-view env fuel b to front rest m m1 w run
          ∙ subst
              (λ (ws : List ℕ).
                wake_up (front ∷ []) (record (view m) { queue = moved_to b to rest m.waiters })
                ≡ wake_up (first ws)
                    (record (view m) { queue = moved_to b to (others ws) m.waiters }))
              (sym w) refl
    ]
