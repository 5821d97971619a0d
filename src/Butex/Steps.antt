-- ===== src/Butex/Steps.antt =====
-- dbrpc/butex.cpp: the operations on butexes as the steps of a transition system, in any order.
use mathlib.Core.Path.{subst}
use brpc_source_code_analysi.Prelude.{
  ℕ, ◌≡◌, refl, sym, ap, ◌∙◌, zero, suc, ◌≤◌, Bool, Option, none, some, List, [], ◌∷◌, ◌++◌, arith,
  count, ==_refl, inl, inr, Option-cases, Bool-cases, true, count-append, update,
}
use brpc_source_code_analysi.Butex.State.{
  Mem, Env, WaiterState, IsLinked, set_waiters, set_container,
}
use brpc_source_code_analysi.Butex.Wake.{
  butex_wake, butex_wake_all, butex_wake_except, run_front, pop_head,
}
use brpc_source_code_analysi.Butex.Frame.{Frame-IsLinked, run_front-Frame}
use brpc_source_code_analysi.Butex.Linked.{
  butex_wake-IsLinked, butex_wake_all-IsLinked, pop_head-IsLinked,
}
use brpc_source_code_analysi.Butex.Except.{excluded_in, butex_wake_except-IsLinked}
use brpc_source_code_analysi.Butex.Wait.{
  requeue_rest, requeue_to, requeue_between, erase_from_butex, wait_for_butex,
}
use brpc_source_code_analysi.Butex.Erase.{erase_queued, erase-unowned}
use brpc_source_code_analysi.Butex.Suspend.{wait_for_butex-IsLinked, store}
use brpc_source_code_analysi.Butex.Requeue.{move_one, requeue_rest-step, requeue_rest-done}

-- The moment at which `butex_wait_from_pthread` queues its waiter, under the lock.
abbrev pub queue : ℕ → ℕ → Mem → Mem
queue b w m = set_container w (some b) (set_waiters b (m.waiters b ++ w ∷ []) m)

pub data Step (m m' : Mem) : Type 0 where
  stores : (b v : ℕ) → m' ≡ store b v m → Step m m'
  wakes : (env : Env) (b : ℕ) → m' ≡ (butex_wake env b m).0 → Step m m'
  wakes_all : (env : Env) (b : ℕ) → m' ≡ (butex_wake_all env b m).0 → Step m m'
  wakes_except :
      (env : Env) (b x : ℕ)
      → excluded_in m.waiter x (m.waiters b) ≤ 1
      → m' ≡ (butex_wake_except env b x m).0
      → Step m m'
  requeues :
      (double_lock : ℕ → ℕ → Bool) (env : Env) (fuel b to n : ℕ)
      → requeue_between double_lock env fuel b to m ≡ some (m', n)
      → Step m m'
  erases :
      (env : Env) (bw : ℕ) (wakeup : Bool) (state : WaiterState) (erased : Bool)
      → erase_from_butex env (λ i k. k) 1 bw wakeup state m ≡ some (m', erased)
      → Step m m'
  suspends :
      (env : Env) (g bw : ℕ) → m.container bw ≡ none → m' ≡ wait_for_butex env g bw m → Step m m'
  queues : (b w : ℕ) → m.container w ≡ none → m' ≡ queue b w m → Step m m'

pub data Reach (m : Mem) : Mem → Type 0 where
  here : Reach m m
  later : {m1 m2 : Mem} → Reach m m1 → Step m1 m2 → Reach m m2

-- At the start every queue is empty and no waiter has a container.
pub record IsInitial (m : Mem) : Type 0 where
  pub no_waiters : (b : ℕ) → m.waiters b ≡ []
  pub no_container : (w : ℕ) → m.container w ≡ none

queue-IsLinked : (b w : ℕ) (m : Mem) → m.container w ≡ none → IsLinked m → IsLinked (queue b w m)
queue-IsLinked b w m free h c x =
    ground (arith, h c x, h c w, ==_refl w, count-append x (m.waiters b) (w ∷ []))

move_one-IsLinked :
    (b m bw : ℕ) (rest : List ℕ) (mem : Mem)
    → mem.waiters b ≡ bw ∷ rest
    → IsLinked mem
    → IsLinked (move_one b m bw rest mem)
move_one-IsLinked b m bw rest mem e h c w = ground (
  arith,
  h c w,
  h b w,
  h b bw,
  h c bw,
  ap (count w) e,
  ap (count bw) e,
  count-append w (update mem.waiters b rest m) (bw ∷ []),
)

requeue_rest-IsLinked :
    (fuel b m : ℕ) (mem mem' : Mem)
    → IsLinked mem
    → requeue_rest fuel b m mem ≡ some mem'
    → IsLinked mem'
unfolding requeue_rest
requeue_rest-IsLinked zero b m mem mem' h e = cc
requeue_rest-IsLinked (suc fuel) b m mem mem' h e =
    go (mem.waiters b) refl (λ mem1. requeue_rest-IsLinked fuel b m mem1 mem')
  where
    go :
        (ws : List ℕ)
        → mem.waiters b ≡ ws
        → ((mem1 : Mem) → IsLinked mem1 → requeue_rest fuel b m mem1 ≡ some mem' → IsLinked mem')
        → IsLinked mem'
    go [] w ih = subst IsLinked {x = mem} {y = mem'} (cc (requeue_rest-done fuel b m mem w)) h
    go (bw ∷ rest) w ih =
        ih (move_one b m bw rest mem) (move_one-IsLinked b m bw rest mem w h)
          (sym (requeue_rest-step fuel b m bw rest mem w) ∙ e)

pub some-fst {ℓ κ} :
    {A : Type ℓ} {B : Type κ} {a a' : A} {b b' : B}
    → ◌≡◌ {A = Option (A × B)} (some (a, b)) (some (a', b'))
    → a ≡ a'
some-fst e = cc

erase-IsLinked :
    (env : Env) (bw : ℕ) (wakeup : Bool) (state : WaiterState) (erased : Bool) (m m' : Mem)
    → IsLinked m
    → erase_from_butex env (λ i k. k) 1 bw wakeup state m ≡ some (m', erased)
    → IsLinked m'
erase-IsLinked env bw wakeup state erased m m' h e = elim (Option-cases (m.container bw)) [
  | inl free ↦
      subst IsLinked {x = m} {y = m'}
        (some-fst (sym (erase-unowned env (λ i k. k) 0 bw wakeup state m free) ∙ e)) h
  | inr (b, owned) ↦
      let (m1, run, r) = erase_queued env 0 b bw wakeup state m h owned in
      subst IsLinked {x = m1} {y = m'} (some-fst (sym run ∙ e)) r.linked
]

requeue_to-IsLinked :
    (env : Env) (fuel b to n : ℕ) (m m' : Mem)
    → IsLinked m
    → requeue_to env fuel b to m ≡ some (m', n)
    → IsLinked m'
requeue_to-IsLinked env fuel b to n m m' h e = go (m.waiters b) refl
  where
    go : (ws : List ℕ) → m.waiters b ≡ ws → IsLinked m'
    go [] w = subst IsLinked {x = m} {y = m'} (ground arith) h
    go (front ∷ rest) w = elim (Option-cases (requeue_rest fuel b to (pop_head b front rest m))) [
      | inl stuck ↦ absurd (ground arith)
      | inr (m1, run) ↦ subst IsLinked {x = run_front env front m1} {y = m'} (ground arith) (
          Frame-IsLinked (run_front-Frame env front m1)
            (requeue_rest-IsLinked fuel b to _ m1 (pop_head-IsLinked b front rest m w h) run))
    ]

-- The body runs only when both locks are got.
pub requeue_between-locked :
    (double_lock : ℕ → ℕ → Bool) (env : Env) (fuel b to n : ℕ) (m m' : Mem)
    → requeue_between double_lock env fuel b to m ≡ some (m', n)
    → (double_lock b to ≡ true) × (requeue_to env fuel b to m ≡ some (m', n))
unfolding requeue_between
requeue_between-locked double_lock env fuel b to n m m' e = elim (Bool-cases (double_lock b to)) [
  | inl got ↦ (got, rw (sym e, got, requeue_between) refl)
  | inr stuck ↦ absurd (ground (arith, e, stuck))
]

Step-IsLinked : {m m' : Mem} → Step m m' → IsLinked m → IsLinked m'
Step-IsLinked (stores b v e) h = rw e h
Step-IsLinked (wakes env b e) h = rw e (butex_wake-IsLinked env b _ h)
Step-IsLinked (wakes_all env b e) h = rw e (butex_wake_all-IsLinked env b _ h)
Step-IsLinked (wakes_except env b x one e) h = rw e (butex_wake_except-IsLinked env b x _ one h)
Step-IsLinked {m} {m'} (requeues double_lock env fuel b to n e) h =
    requeue_to-IsLinked env fuel b to n m m' h
      (requeue_between-locked double_lock env fuel b to n m m' e).1
Step-IsLinked {m} {m'} (erases env bw wakeup state erased e) h =
    erase-IsLinked env bw wakeup state erased m m' h e
Step-IsLinked (suspends env g bw free e) h = rw e (wait_for_butex-IsLinked env g bw _ free h)
Step-IsLinked {m} (queues b w free e) h = rw e (queue-IsLinked b w m free h)

-- After any history of the operations on butexes that starts without waiters, a waiter stands once in
-- the queue of its container, and in no other.
pub Reach-IsLinked : {m m' : Mem} → IsInitial m → Reach m m' → IsLinked m'
Reach-IsLinked h here = λ c w. rw (h.no_waiters c, h.no_container w) refl
Reach-IsLinked h (later r s) = Step-IsLinked s (Reach-IsLinked h r)
