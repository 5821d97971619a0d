-- ===== src/Butex/Refines.antt =====
-- dbrpc/butex.cpp: the steps of the transition system, seen through the specification.
use mathlib.Core.Path.{subst, fun_ext}
use brpc_source_code_analysi.Prelude.{
  ℕ, ◌≡◌, refl, sym, ap, ◌∙◌, ◌<◌, ◌==◌, List, [], ◌∷◌, reverse, count, count-append, count-reverse,
  update, arith, Bool-cases, Option-cases, inl, inr, ==_eq, ==_refl, Bool, true, false, none,
}
use brpc_source_code_analysi.Butex.State.{
  Mem, Env, WaiterState, IsLinked, signalled_pthreads, wakeup_pthread, unmatched_value,
  set_waiter_state,
}
use brpc_source_code_analysi.Butex.Woken.{Woken, pthreads, unsleep-Added}
use brpc_source_code_analysi.Butex.Frame.{unsleep-Frame}
use brpc_source_code_analysi.Butex.Wait.{
  unlink, wake_erased, wait_for_butex, back_to_run, may_queue,
}
use brpc_source_code_analysi.Butex.Order.{butex_wake-Woken, butex_wake_all-Woken}
use brpc_source_code_analysi.Butex.OrderExcept.{butex_wake_except-Woken}
use brpc_source_code_analysi.Butex.Moved.{requeue_to-view}
use brpc_source_code_analysi.Butex.Erase.{after_unlink, erase_run, erase-unowned}
use brpc_source_code_analysi.Butex.Steps.{
  Step, stores, wakes, wakes_all, wakes_except, requeues, erases, suspends, queues, some-fst,
  requeue_between-locked, IsInitial, Reach, here, later, Reach-IsLinked,
}
use brpc_source_code_analysi.Butex.Spec.{
  Spec, SpecCall, store, wake, wake_all, wake_except, requeue, erase, wait, queue, view, Spec-ext,
  wake_up, set_queue, make_runnable, SpecStep, taking_out, taking_out_and_waking, not_queued,
  waiting, value_changed, not_ready, enqueuing, waking_one, storing, waking_all, waking_except,
  requeuing,
}

Woken-queue :
    (m m' : Mem) (b : ℕ) (woken kept : List ℕ) (n : ℕ)
    → Woken m b woken kept m' n
    → (c : ℕ) → m'.waiters c ≡ update m.waiters b kept c
Woken-queue m m' b woken kept n w c = elim (Bool-cases (b == c)) [
  | inl it ↦ rw it (ap m'.waiters (sym (==_eq b c it)) ∙ w.queue)
  | inr there ↦ rw there (w.elsewhere c there)
]

pub Woken-view :
    (m m' : Mem) (b : ℕ) (woken kept : List ℕ) (n : ℕ)
    → Woken m b woken kept m' n
    → view m' ≡ wake_up woken (set_queue b kept (view m))
Woken-view m m' b woken kept n w =
    Spec-ext _ _ w.values (fun_ext (Woken-queue m m' b woken kept n w)) w.identities
      (fun_ext (λ t. ap (count t) w.resumes ∙ count-append t _ _))
      (fun_ext (λ p. omega (
        arith,
        ap (count p) w.signals,
        count-append p (reverse (pthreads m.waiter woken)) (signalled_pthreads m.calls),
        count-reverse p (pthreads m.waiter woken),
      )))

erased-view :
    (env : Env) (b bw : ℕ) (wakeup : Bool) (state : WaiterState) (m : Mem)
    → 0 < count bw (m.waiters b)
    → SpecStep (view m) (view (after_unlink env bw wakeup (unlink b bw state m))) (erase bw wakeup)
unfolding wake_erased wakeup_pthread
erased-view env b bw true state m has = taking_out_and_waking b bw has (
    Spec-ext _ _ (ground arith) (ground arith) (ground arith) (fun_ext (λ t. ground arith))
      (fun_ext (λ p. ground arith)))
erased-view env b bw false state m has =
    taking_out b bw has
      (Spec-ext _ _ (ground arith) (ground arith) (ground arith) (ground arith) (ground arith))

back_to_run-view :
    (env : Env) (g bw : ℕ) (m : Mem) → view (back_to_run env g bw m) ≡ make_runnable bw (view m)
unfolding back_to_run
back_to_run-view env g bw m =
    let f = unsleep-Frame env bw m in
    let a = unsleep-Added env bw m in
    Spec-ext _ _ (ground (arith, f, a)) (ground (arith, f, a)) (ground (arith, f, a))
      (fun_ext (λ t. ground (arith, f, a))) (fun_ext (λ p. ground (arith, f, a)))

wait_for_butex-view :
    (env : Env) (g bw : ℕ) (m : Mem)
    → m.container bw ≡ none
    → IsLinked m
    → SpecStep (view m) (view (wait_for_butex env g bw m)) (wait bw (may_queue bw m))
unfolding wait_for_butex
wait_for_butex-view env g bw m free h =
    elim (Bool-cases (m.value (m.waiter bw).initial_butex == (m.waiter bw).expected_value)) [
      | inr changed ↦
          value_changed bw (may_queue bw m) (λ e. ground (arith, changed, e))
            (rw (changed, wait_for_butex)
              (back_to_run-view env g bw (set_waiter_state bw unmatched_value m)))
      | inl unchanged ↦ elim (Bool-cases (may_queue bw m)) [
        | inl ready ↦
            subst (SpecStep (view m) (view (wait_for_butex env g bw m))) {x = wait bw true}
              (ap (wait bw) (sym ready))
              (waiting bw (==_eq _ _ unchanged) (λ c. h c bw ∙ rw free refl)
                (rw (unchanged, ready, wait_for_butex) refl))
        | inr passed ↦
            subst (SpecStep (view m) (view (wait_for_butex env g bw m))) {x = wait bw false}
              (ap (wait bw) (sym passed))
              (not_ready bw (rw (unchanged, passed, wait_for_butex) (back_to_run-view env g bw m)))
      ]
    ]

-- The call that a step makes.
abbrev pub call_of : {m m' : Mem} → Step m m' → SpecCall
call_of (stores b v e) = store b v
call_of (wakes env b e) = wake b
call_of (wakes_all env b e) = wake_all b
call_of (wakes_except env b x one e) = wake_except b x
call_of (requeues double_lock env fuel b to n e) = requeue b to
call_of (erases env bw wakeup state erased e) = erase bw wakeup
call_of {m} (suspends env g bw free e) = wait bw (may_queue bw m)
call_of (queues b w free e) = queue b w

-- Each operation on butexes that starts with queues and containers in step does what the
-- specification says of this call: on queues alone.
pub Step-SpecStep :
    {m m' : Mem} (s : Step m m') → IsLinked m → SpecStep (view m) (view m') (call_of s)
Step-SpecStep (stores b v e) h = storing b v (ap view e)
Step-SpecStep (wakes env b e) h =
    waking_one b (ap view e ∙ Woken-view _ _ b _ _ _ (butex_wake-Woken env b _))
Step-SpecStep (wakes_all env b e) h =
    waking_all b (ap view e ∙ Woken-view _ _ b _ _ _ (butex_wake_all-Woken env b _))
Step-SpecStep (wakes_except env b x one e) h =
    waking_except b x (ap view e ∙ Woken-view _ _ b _ _ _ (butex_wake_except-Woken env b x _ one))
Step-SpecStep {m} {m'} (requeues double_lock env fuel b to n e) h = requeuing b to (
    requeue_to-view env fuel b to n m m'
      (requeue_between-locked double_lock env fuel b to n m m' e).1)
Step-SpecStep {m} {m'} (erases env bw wakeup state erased e) h =
    elim (Option-cases (m.container bw)) [
      | inl free ↦
          not_queued bw wakeup (λ c. h c bw ∙ rw free refl)
            (ap view (some-fst (sym e ∙ erase-unowned env (λ i k. k) 0 bw wakeup state m free)))
      | inr (b, owned) ↦
          subst (λ (x : Mem). SpecStep (view m) (view x) (erase bw wakeup))
            (some-fst (sym (erase_run env 0 b bw wakeup state m owned) ∙ e))
            (erased-view env b bw wakeup state m (ground (arith, h b bw, owned, ==_refl b)))
    ]
Step-SpecStep {m} {m'} (suspends env g bw free e) h =
    subst (λ (x : Mem). SpecStep (view m) (view x) (wait bw (may_queue bw m))) (sym e)
      (wait_for_butex-view env g bw m free h)
Step-SpecStep {m} (queues b w free e) h = enqueuing b w (λ c. h c w ∙ rw free refl) (ap view e)

-- The calls of a history, newest first.
abbrev pub calls_of : {m m' : Mem} → Reach m m' → List SpecCall
calls_of here = []
calls_of (later r s) = call_of s ∷ calls_of r

pub data SpecReach (s : Spec) : Spec → List SpecCall → Type 0 where
  at_start : SpecReach s s []
  one_more :
      {s1 s2 : Spec} {calls : List SpecCall} {call : SpecCall}
      → SpecReach s s1 calls
      → SpecStep s1 s2 call
      → SpecReach s s2 (call ∷ calls)

-- Every history of the operations on butexes that starts without waiters is, seen on queues alone,
-- a history of the specification with the same calls in the same order: each call takes out of the
-- queues, puts into them and wakes exactly what the specification says of it.
pub Reach-SpecReach :
    {m m' : Mem} → IsInitial m → (r : Reach m m') → SpecReach (view m) (view m') (calls_of r)
Reach-SpecReach h here = at_start
Reach-SpecReach h (later r s) =
    one_more (Reach-SpecReach h r) (Step-SpecStep s (Reach-IsLinked h r))
