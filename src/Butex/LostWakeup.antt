-- ===== src/Butex/LostWakeup.antt =====
-- dbrpc/butex.cpp: a wait against a change of the butex value and a wake.
use mathlib.Core.Path.{subst}
use brpc_source_code_analysi.Prelude.{
  ℕ, ◌≡◌, refl, ap, ◌∙◌, ◌<◌, ◌==◌, Bool, false, List, ◌∷◌, arith, count, ==_refl, inl, inr,
  Bool-cases, update,
}
use brpc_source_code_analysi.Butex.State.{Mem, Env, Call, Waiter, tid_of, resumed}
use brpc_source_code_analysi.Butex.Wake.{butex_wake_all}
use brpc_source_code_analysi.Butex.Order.{butex_wake_all-Woken}
use brpc_source_code_analysi.Butex.Wait.{wait_for_butex}
use brpc_source_code_analysi.Butex.Suspend.{
  should_queue, Queued, Returned, Outcome, wait_for_butex-Outcome, store, wake_all-count,
  wake_all-count_last,
}

-- The calling sequences of a waiting bthread and of a thread that stores a new value and then wakes
-- all waiters: the wait runs before both, between them, or after both.
pub wait_store_wake : Env → Env → ℕ → ℕ → ℕ → Mem → Mem
wait_store_wake env env' g bw v m =
    let b = (m.waiter bw).initial_butex in
    (butex_wake_all env' b (store b v (wait_for_butex env g bw m))).0

pub store_wait_wake : Env → Env → ℕ → ℕ → ℕ → Mem → Mem
store_wait_wake env env' g bw v m =
    let b = (m.waiter bw).initial_butex in
    (butex_wake_all env' b (wait_for_butex env g bw (store b v m))).0

pub store_wake_wait : Env → Env → ℕ → ℕ → ℕ → Mem → Mem
store_wake_wait env env' g bw v m =
    let b = (m.waiter bw).initial_butex in
    wait_for_butex env g bw (butex_wake_all env' b (store b v m)).0

count_self : (t : ℕ) (l : List ℕ) {l' : List ℕ} → l' ≡ t ∷ l → count t l < count t l'
count_self t l e = ground (arith, ap (count t) e, ==_refl t)

module _ (env env' : Env) (g bw v : ℕ) (m : Mem) (bthread : (tid_of m bw == 0) ≡ false)
    (changed : (v == (m.waiter bw).expected_value) ≡ false) where
  abbrev pub tid : ℕ
  tid = tid_of m bw

  abbrev pub butex : ℕ
  butex = (m.waiter bw).initial_butex

  abbrev pub MadeRunnable : Mem → Type 0
  MadeRunnable m' = count tid (resumed m.calls) < count tid (resumed m'.calls)

  returned : (m1 : Mem) → should_queue bw m1 ≡ false → Returned bw m1 (wait_for_butex env g bw m1)
  returned m1 n =
      subst (λ (k : Bool). Outcome k bw m1 (wait_for_butex env g bw m1)) n
        (wait_for_butex-Outcome env g bw m1)

  -- The waiter is in the queue when the other thread walks it.
  Queued-MadeRunnable :
      Queued butex bw m (wait_for_butex env g bw m)
      → MadeRunnable (butex_wake_all env' butex (store butex v (wait_for_butex env g bw m))).0
  Queued-MadeRunnable o =
      let m1 = wait_for_butex env g bw m in
      let m2 = (butex_wake_all env' butex (store butex v m1)).0 in
      let w =
        subst
          (λ (wt : ℕ → Waiter).
            count (wt bw).tid (resumed m1.calls) < count (wt bw).tid (resumed m2.calls))
          o.same_waiter
          (wake_all-count_last env' butex bw (m.waiters butex) (store butex v m1) o.queue
            (rw o.same_waiter bthread)) in
      omega (arith, w, ap (λ (cs : List Call). count tid (resumed cs)) o.no_calls)

  wait_store_wake-MadeRunnable : MadeRunnable (wait_store_wake env env' g bw v m)
  unfolding wait_store_wake
  wait_store_wake-MadeRunnable = elim (Bool-cases (should_queue bw m)) [
    | inl q ↦ Queued-MadeRunnable (
        subst (λ (k : Bool). Outcome k bw m (wait_for_butex env g bw m)) q
          (wait_for_butex-Outcome env g bw m))
    | inr n ↦ omega (
      arith,
      count_self tid (resumed m.calls) (returned m n).resumes,
      wake_all-count env' butex tid (store butex v (wait_for_butex env g bw m)),
    )
  ]

  unmatched :
      (m1 : Mem)
      → m1.value ≡ update m.value butex v
      → m1.waiter ≡ m.waiter
      → should_queue bw m1 ≡ false
  unmatched m1 e i = rw (e, i, ==_refl butex, changed) refl

  store_wait_wake-MadeRunnable : MadeRunnable (store_wait_wake env env' g bw v m)
  unfolding store_wait_wake
  store_wait_wake-MadeRunnable =
      let o = returned (store butex v m) (unmatched (store butex v m) refl refl) in
      omega (
        arith,
        count_self tid (resumed m.calls) o.resumes,
        wake_all-count env' butex tid (wait_for_butex env g bw (store butex v m)),
      )

  store_wake_wait-MadeRunnable : MadeRunnable (store_wake_wait env env' g bw v m)
  unfolding store_wake_wait
  store_wake_wait-MadeRunnable =
      let m1 = (butex_wake_all env' butex (store butex v m)).0 in
      let w = butex_wake_all-Woken env' butex (store butex v m) in
      let o = returned m1 (unmatched m1 w.values w.identities) in
      omega (
        arith,
        count_self tid (resumed m1.calls)
            (o.resumes ∙ ap (λ (wt : ℕ → Waiter). (wt bw).tid ∷ resumed m1.calls) w.identities),
        wake_all-count env' butex tid (store butex v m),
      )

  -- A bthread is about to wait for a value, another thread stores a different one and wakes all
  -- waiters. Whichever way the two interleave, the bthread is made runnable: its wait sees the new
  -- value, or the wake sees its waiter.
  pub no_lost_wakeup :
      MadeRunnable (wait_store_wake env env' g bw v m)
      × MadeRunnable (store_wait_wake env env' g bw v m)
      × MadeRunnable (store_wake_wait env env' g bw v m)
  no_lost_wakeup =
      (wait_store_wake-MadeRunnable, store_wait_wake-MadeRunnable, store_wake_wait-MadeRunnable)
