-- ===== src/Butex/Erase.antt =====
-- dbrpc/butex.cpp: `erase_from_butex`, which a timer, an interruption and a timeout may all call.
use mathlib.Core.Path.{subst}
use brpc_source_code_analysi.Prelude.{
  ℕ, zero, suc, ◌≡◌, refl, same, ◌∙◌, ap, ◌==◌, ◌&&◌, if◌then◌else◌, Bool, true, false, Option,
  none, some, ◌∷◌, arith, count, ==_refl, inl, inr, Bool-cases, Option-cases, not, remove,
  count-remove_self, count-remove_other,
}
use brpc_source_code_analysi.Butex.State.{
  Mem, Env, WaiterState, IsLinked, is_pthread, tid_of, resumed, signalled_pthreads, wakeup_pthread,
}
use brpc_source_code_analysi.Butex.Frame.{Frame, Frame-refl, Frame-IsLinked, wakeup_pthread-Frame}
use brpc_source_code_analysi.Butex.Wait.{unlink, wake_erased, erase_loop, erase_from_butex}

wake_erased-Frame : (env : Env) (w : ℕ) (m : Mem) → Frame m (wake_erased env w m)
unfolding wake_erased
wake_erased-Frame env w m = ground (arith, wakeup_pthread-Frame w m)

unlink-IsLinked :
    (b bw : ℕ) (state : WaiterState) (m : Mem)
    → m.container bw ≡ some b
    → IsLinked m
    → IsLinked (unlink b bw state m)
unlink-IsLinked b bw state m e h c w = elim (Bool-cases (b == c)) [
  | inl here ↦ elim (Bool-cases (bw == w)) [
    | inl it ↦ ground (arith, h c w, h b bw, e, here, it, count-remove_self bw (m.waiters b))
    | inr other ↦
        ground (arith, h c w, h b w, e, here, other, count-remove_other bw w (m.waiters b))
  ]
  | inr there ↦ ground (arith, h c w, h c bw, h b bw, e, there)
]

erase_loop-container :
    (others : ℕ → Mem → Mem) (fuel round bw : ℕ) (state : WaiterState) (m m' : Mem) (erased : Bool)
    → erase_loop others fuel round bw state m ≡ some (m', erased)
    → m'.container bw ≡ none
unfolding erase_loop
erase_loop-container others zero round bw state m m' erased e = cc
erase_loop-container others (suc fuel) round bw state m m' erased e = ground (
  arith,
  ==_refl bw,
  erase_loop-container others fuel (suc round) bw state (others round m) m' erased,
)

wake_erased-container :
    (env : Env) (bw : ℕ) (m : Mem) → (wake_erased env bw m).container ≡ m.container
wake_erased-container env bw m = (wake_erased-Frame env bw m).same_container

pub erase-container :
    (env : Env) (others : ℕ → Mem → Mem) (fuel bw : ℕ) (wakeup : Bool) (state : WaiterState)
    (m m' : Mem) (erased : Bool)
    → erase_from_butex env others fuel bw wakeup state m ≡ some (m', erased)
    → m'.container bw ≡ none
unfolding erase_from_butex
erase-container env others fuel bw wakeup state m m' erased e =
    elim (Option-cases (erase_loop others fuel 0 bw state m)) [
      | inl stuck ↦ ground arith
      | inr ((m1, done), run) ↦ ground (
        arith,
        erase_loop-container others fuel 0 bw state m m1 done run,
        ap (λ (f : ℕ → Option ℕ). f bw) (wake_erased-container env bw m1),
      )
    ]

pub erase-unowned :
    (env : Env) (others : ℕ → Mem → Mem) (fuel bw : ℕ) (wakeup : Bool) (state : WaiterState)
    (m : Mem)
    → m.container bw ≡ none
    → erase_from_butex env others (suc fuel) bw wakeup state m ≡ some (m, false)
unfolding erase_from_butex erase_loop
erase-unowned env others fuel bw wakeup state m e = ground arith

erase_loop-IsLinked :
    (others : ℕ → Mem → Mem) (fuel round bw : ℕ) (state : WaiterState) (m m' : Mem) (erased : Bool)
    → ((i : ℕ) (k : Mem) → IsLinked k → IsLinked (others i k))
    → IsLinked m
    → erase_loop others fuel round bw state m ≡ some (m', erased)
    → IsLinked m'
unfolding erase_loop
erase_loop-IsLinked others zero round bw state m m' erased keep h e = cc
erase_loop-IsLinked others (suc fuel) round bw state m m' erased keep h e =
    elim (Option-cases (m.container bw)) [
      | inl free ↦ subst IsLinked {x = m} {y = m'} (ground (arith, e, free)) h
      | inr (b, owned) ↦
          let m1 = others round m in
          elim (Bool-cases (same (some b) (m1.container bw))) [
            | inl still ↦
                subst IsLinked {x = unlink b bw state m1} {y = m'} (ground (arith, e, owned, still))
                  (unlink-IsLinked b bw state m1 (ground (arith, still)) (keep round m h))
            | inr moved ↦
                erase_loop-IsLinked others fuel (suc round) bw state m1 m' erased keep
                  (keep round m h) (ground (arith, e, owned, moved))
          ]
    ]

erase_from_butex-IsLinked :
    (env : Env) (others : ℕ → Mem → Mem) (fuel bw : ℕ) (wakeup : Bool) (state : WaiterState)
    (m m' : Mem) (erased : Bool)
    → ((i : ℕ) (k : Mem) → IsLinked k → IsLinked (others i k))
    → IsLinked m
    → erase_from_butex env others fuel bw wakeup state m ≡ some (m', erased)
    → IsLinked m'
unfolding erase_from_butex
erase_from_butex-IsLinked env others fuel bw wakeup state m m' erased keep h e =
    elim (Option-cases (erase_loop others fuel 0 bw state m)) [
      | inl stuck ↦ absurd (ground (arith, e, stuck))
      | inr ((m1, done), run) ↦
          let linked = erase_loop-IsLinked others fuel 0 bw state m m1 done keep h run in
          elim (Bool-cases (done && wakeup)) [
            | inl wakes ↦
                subst IsLinked {x = wake_erased env bw m1} {y = m'} (ground (arith, e, run, wakes))
                  (Frame-IsLinked (wake_erased-Frame env bw m1) linked)
            | inr silent ↦ subst IsLinked {x = m1} {y = m'} (ground (arith, e, run, silent)) linked
          ]
    ]

-- Other threads may wake, queue and erase waiters between the load of the container and the lock, as
-- long as they keep queues and containers in step. However the loop of `erase_from_butex` ends, queues
-- and containers are in step, so that the waiter, which has no container, stands in no queue; and a
-- second call finds nothing to do: one caller erases the waiter.
pub erase_once :
    (env env' : Env) (others others' : ℕ → Mem → Mem) (fuel fuel' bw : ℕ) (wakeup wakeup' : Bool)
    (state state' : WaiterState) (m m' : Mem) (erased : Bool)
    → ((i : ℕ) (k : Mem) → IsLinked k → IsLinked (others i k))
    → IsLinked m
    → erase_from_butex env others fuel bw wakeup state m ≡ some (m', erased)
    → (m'.container bw ≡ none)
      × ((c : ℕ) → count bw (m'.waiters c) ≡ 0)
      × IsLinked m'
      × (erase_from_butex env' others' (suc fuel') bw wakeup' state' m' ≡ some (m', false))
erase_once env env' others others' fuel fuel' bw wakeup wakeup' state state' m m' erased keep h e =
    let out = erase-container env others fuel bw wakeup state m m' erased e in
    let linked = erase_from_butex-IsLinked env others fuel bw wakeup state m m' erased keep h e in
    (
      out,
      λ c. linked c bw ∙ rw out refl,
      linked,
      erase-unowned env' others' fuel' bw wakeup' state' m' out,
    )

-- What one call does to a waiter that is queued on `b`, if no other thread interferes.
pub record Erased (b bw : ℕ) (wakeup : Bool) (state : WaiterState) (m m' : Mem) : Type 0 where
  pub queue : m'.waiters b ≡ remove bw (m.waiters b)
  pub gone : count bw (m'.waiters b) ≡ 0
  pub unowned : m'.container bw ≡ none
  pub marked : m'.waiter_state bw ≡ (if is_pthread m bw then m.waiter_state bw else state)
  pub resumes :
      resumed m'.calls
      ≡ (if not (is_pthread m bw) && wakeup then tid_of m bw ∷ resumed m.calls else resumed m.calls)
  pub signals : signalled_pthreads m'.calls ≡ (
      if is_pthread m bw && wakeup
      then bw ∷ signalled_pthreads m.calls
      else signalled_pthreads m.calls)
  pub linked : IsLinked m'

abbrev pub after_unlink : Env → ℕ → Bool → Mem → Mem
after_unlink env bw true u = wake_erased env bw u
after_unlink env bw false u = u

after_unlink-Frame :
    (env : Env) (bw : ℕ) (wakeup : Bool) (u : Mem) → Frame u (after_unlink env bw wakeup u)
after_unlink-Frame env bw true u = wake_erased-Frame env bw u
after_unlink-Frame env bw false u = Frame-refl u

pub erase_run :
    (env : Env) (fuel b bw : ℕ) (wakeup : Bool) (state : WaiterState) (m : Mem)
    → m.container bw ≡ some b
    → erase_from_butex env (λ i k. k) (suc fuel) bw wakeup state m
      ≡ some (after_unlink env bw wakeup (unlink b bw state m), true)
unfolding erase_from_butex erase_loop
erase_run env fuel b bw wakeup state m e = ground (arith, ==_refl b)

erase_run-Erased :
    (env : Env) (b bw : ℕ) (wakeup : Bool) (state : WaiterState) (m : Mem)
    → IsLinked m
    → m.container bw ≡ some b
    → Erased b bw wakeup state m (after_unlink env bw wakeup (unlink b bw state m))
unfolding wake_erased wakeup_pthread
erase_run-Erased env b bw wakeup state m h e =
    let l = unlink-IsLinked b bw state m e h in
    record {
      queue = ground (arith, ==_refl b);
      gone = ground (arith, ==_refl b, h b bw, e, count-remove_self bw (m.waiters b));
      unowned = ground (arith, ==_refl bw);
      marked = ground (arith, ==_refl bw);
      resumes = ground arith;
      signals = ground arith;
      linked = Frame-IsLinked (after_unlink-Frame env bw wakeup (unlink b bw state m)) l;
    }

-- When no other thread is in between, `erase_from_butex` of a queued waiter returns: the waiter is
-- erased, marked and, if asked, woken once. The queues and containers are in step before.
pub erase_queued :
    (env : Env) (fuel b bw : ℕ) (wakeup : Bool) (state : WaiterState) (m : Mem)
    → IsLinked m
    → m.container bw ≡ some b
    → (m' : Mem) × (erase_from_butex env (λ i k. k) (suc fuel) bw wakeup state m ≡ some (m', true))
      × Erased b bw wakeup state m m'
erase_queued env fuel b bw wakeup state m h e = (
  after_unlink env bw wakeup (unlink b bw state m),
  erase_run env fuel b bw wakeup state m e,
  erase_run-Erased env b bw wakeup state m h e,
)
