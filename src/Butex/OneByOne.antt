-- ===== src/Butex/OneByOne.antt =====
-- dbrpc/butex.cpp: `butex_wake_all` next to calls of `butex_wake`.
use mathlib.Core.Path.{fun_ext, subst}
use brpc_source_code_analysi.Prelude.{
  ℕ, zero, suc, ◌≡◌, refl, sym, ap, ◌∙◌, ◌+◌, List, [], ◌∷◌, arith, length,
}
use brpc_source_code_analysi.Butex.State.{Mem, Env}
use brpc_source_code_analysi.Butex.Wake.{butex_wake, butex_wake_all}
use brpc_source_code_analysi.Butex.Woken.{Woken}
use brpc_source_code_analysi.Butex.Order.{first, others, butex_wake-Woken, butex_wake_all-Woken}
use brpc_source_code_analysi.Butex.Spec.{Spec, view, wake_up, set_queue}
use brpc_source_code_analysi.Butex.Spec.{Spec-ext}
use brpc_source_code_analysi.Butex.Refines.{Woken-view}

-- `calls` times `butex_wake`, each from a thread of its own, and the sum of the answers.
abbrev pub wake_each : (ℕ → Env) → ℕ → ℕ → Mem → Mem × ℕ
wake_each envs zero b m = (m, 0)
wake_each envs (suc calls) b m =
    let (m1, n) = butex_wake (envs calls) b m in
    let (m2, k) = wake_each envs calls b m1 in (m2, n + k)

wake_up-cons :
    (b w : ℕ) (ws : List ℕ) (s : Spec)
    → wake_up ws (set_queue b [] (wake_up (w ∷ []) (set_queue b ws s)))
      ≡ wake_up (w ∷ ws) (set_queue b [] s)
wake_up-cons b w ws s =
    Spec-ext _ _ refl (fun_ext (λ c. ground arith)) refl (fun_ext (λ t. ground arith))
      (fun_ext (λ t. ground arith))

wake_up-nil : (b : ℕ) (s : Spec) → s.queue b ≡ [] → s ≡ wake_up [] (set_queue b [] s)
wake_up-nil b s e =
    Spec-ext _ _ refl (fun_ext (λ c. ground arith)) refl (fun_ext (λ t. ground arith))
      (fun_ext (λ t. ground arith))

wake_each-view :
    (envs : ℕ → Env) (b : ℕ) (ws : List ℕ) (m : Mem)
    → m.waiters b ≡ ws
    → (view (wake_each envs (length ws) b m).0 ≡ wake_up ws (set_queue b [] (view m)))
      × ((wake_each envs (length ws) b m).1 ≡ length ws)
wake_each-view envs b [] m e = (wake_up-nil b (view m) e, refl)
wake_each-view envs b (w ∷ ws) m e =
    let one = butex_wake (envs (length ws)) b m in
    let woken =
      subst (λ (l : List ℕ). Woken m b (first l) (others l) one.0 one.1) e
        (butex_wake-Woken (envs (length ws)) b m) in
    let (rest, answer) = wake_each-view envs b ws one.0 woken.queue in
    (
      rest
          ∙ ap (λ (s : Spec). wake_up ws (set_queue b [] s)) (Woken-view m one.0 b _ _ _ woken)
          ∙ wake_up-cons b w ws (view m),
      omega (arith, woken.answer, answer),
    )

-- `butex_wake_all` does what as many calls of `butex_wake` do as there are waiters, whatever threads
-- make them: the same queues are left, the same bthreads are made runnable and the same pthreads
-- woken, as often, and the answer is the sum of the answers. Only the order of waking may differ.
pub butex_wake_all-wake_each :
    (env : Env) (envs : ℕ → Env) (b : ℕ) (m : Mem)
    → (view (butex_wake_all env b m).0 ≡ view (wake_each envs (length (m.waiters b)) b m).0)
      × ((butex_wake_all env b m).1 ≡ (wake_each envs (length (m.waiters b)) b m).1)
butex_wake_all-wake_each env envs b m =
    let all = butex_wake_all-Woken env b m in
    let (each, answer) = wake_each-view envs b (m.waiters b) m refl in
    (Woken-view m _ b _ _ _ all ∙ sym each, all.answer ∙ sym answer)
