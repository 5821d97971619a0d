-- ===== src/Butex/Order.antt =====
-- dbrpc/butex.cpp: whom the wake functions wake, in which order, and what they return.

use brpc_source_code_analysi.Prelude.{
  ℕ, ◌≡◌, refl, ◌∙◌, ap, ◌+◌, List, [], ◌∷◌, arith, reverse, ◌==◌, false, Option, length, ==_refl,
}
use brpc_source_code_analysi.Butex.State.{Mem, Env, Waiter, wakeup_pthread}
use brpc_source_code_analysi.Butex.Wake.{
  pop_head, run_front, butex_wake, Drained, nothing_drained, drain_all, drain_one, wake_pthreads,
  butex_wake_all,
}
use brpc_source_code_analysi.Butex.Frame.{Frame, run_front-Frame, wake_pthreads-Frame}
use brpc_source_code_analysi.Butex.Linked.{drain_one-waiters, wake_drained_all-Frame}
use brpc_source_code_analysi.Butex.Woken.{
  Woken, Added, bthreads, pthreads, tids, unsleep-Added, wake_pthreads-Added, wake_pthreads-answer,
  wake_drained_all-Added, wake_drained_all-answer,
}
use brpc_source_code_analysi.Butex.Collect.{Collects, drain_all-Collects}

drain_all-waiters :
    (b : ℕ) (ws : List ℕ) (d : Drained)
    → d.mem.waiters b ≡ ws
    → (drain_all b ws d).mem.waiters b ≡ []
unfolding drain_all
drain_all-waiters b [] d e = e
drain_all-waiters b (w ∷ ws) d e =
    drain_all-waiters b ws (drain_one b w ws d) (drain_one-waiters b w ws d)

pub length-parts :
    (wt : ℕ → Waiter) (ws : List ℕ) → length (pthreads wt ws) + length (bthreads wt ws) ≡ length ws
length-parts wt [] = omega arith
length-parts wt (w ∷ ws) = ground (arith, length-parts wt ws)

pub run_front-Added :
    (env : Env) (w : ℕ) (m : Mem)
    → Added m
        (run_front env w m)
        (reverse (pthreads m.waiter (w ∷ [])))
        (tids m.waiter (bthreads m.waiter (w ∷ [])))
unfolding run_front wakeup_pthread
run_front-Added env w m = ground (arith, unsleep-Added env w m)

abbrev pub first : List ℕ → List ℕ
first [] = []
first (w ∷ ws) = w ∷ []

abbrev pub others : List ℕ → List ℕ
others [] = []
others (w ∷ ws) = ws

-- `butex_wake` wakes the waiter that has waited longest, and returns how many it woke.
pub butex_wake-Woken :
    (env : Env) (b : ℕ) (m : Mem)
    → Woken m b
        (first (m.waiters b))
        (others (m.waiters b))
        (butex_wake env b m).0
        (butex_wake env b m).1
unfolding butex_wake
butex_wake-Woken env b m = go (m.waiters b) refl
  where
    go :
        (ws : List ℕ)
        → m.waiters b ≡ ws
        → Woken m b (first ws) (others ws) (butex_wake env b m).0 (butex_wake env b m).1
    go [] e =
        rw (e, butex_wake)
          (record {
            queue = e;
            answer = refl;
            signals = refl;
            resumes = refl;
            values = refl;
            identities = refl;
            elsewhere = λ c h. refl;
            freed = λ w h. absurd (omega arith);
          })
    go (front ∷ rest) e =
        let f = run_front-Frame env front (pop_head b front rest m) in
        let a = run_front-Added env front (pop_head b front rest m) in
        rw (e, butex_wake)
          (record {
            queue = rw (f.same_waiters, ==_refl b) refl;
            answer = refl;
            signals = a.new_signals;
            resumes = a.new_resumes;
            values = f.same_value;
            identities = f.same_waiter;
            elsewhere = λ c h. rw (f.same_waiters, h) refl;
            freed = λ w h. rw f.same_container (ground arith);
          })

-- The local lists after the lock is released.
pub record Released (b : ℕ) (kept : List ℕ) (d : Drained) (m : Mem) : Type 0 where
  pub queue : m.waiters b ≡ kept
  pub elsewhere : (c : ℕ) → (b == c) ≡ false → m.waiters c ≡ d.mem.waiters c
  pub identities : m.waiter ≡ d.mem.waiter
  pub values : m.value ≡ d.mem.value
  pub containers : m.container ≡ d.mem.container
  pub calls : m.calls ≡ d.mem.calls

pub assemble :
    {b : ℕ} {woken kept : List ℕ} {m m1 m2 m3 : Mem} {d : Drained} {n : ℕ}
    → Collects b woken (nothing_drained m) d
    → Released b kept d m1
    → Frame m1 m2
    → Frame m2 m3
    → Added m1 m2 (reverse d.pthread_waiters) []
    → Added m2 m3 [] (tids m2.waiter d.bthread_waiters)
    → n ≡ 0 + length d.pthread_waiters + length d.bthread_waiters
    → Woken m b woken kept m3 n
assemble {b} {woken} {kept} {m} {m1} {m2} {m3} {d} {n} c r f g p q e = record {
  queue = ap (λ (x : ℕ → List ℕ). x b) (g.same_waiters ∙ f.same_waiters) ∙ r.queue;
  answer =
      omega
        (arith, e, ap length c.to_pthreads, ap length c.to_bthreads, length-parts m.waiter woken);
  signals = q.new_signals ∙ p.new_signals ∙ rw (r.calls, c.no_calls, c.to_pthreads) refl;
  resumes =
      q.new_resumes
      ∙ rw
          (
            p.new_resumes, r.calls, c.no_calls, f.same_waiter, r.identities, c.identities,
            c.to_bthreads,
          )
          refl;
  values = g.same_value ∙ f.same_value ∙ r.values ∙ c.values;
  identities = g.same_waiter ∙ f.same_waiter ∙ r.identities ∙ c.identities;
  elsewhere = λ x h.
      ap (λ (k : ℕ → List ℕ). k x) (g.same_waiters ∙ f.same_waiters)
      ∙ r.elsewhere x h
      ∙ c.others x h;
  freed = λ w h.
      ap (λ (k : ℕ → Option ℕ). k w) (g.same_container ∙ f.same_container ∙ r.containers)
      ∙ c.unowned w h;
}

-- `butex_wake_all` wakes every waiter, and returns how many there were.
pub butex_wake_all-Woken :
    (env : Env) (b : ℕ) (m : Mem)
    → Woken m b (m.waiters b) [] (butex_wake_all env b m).0 (butex_wake_all env b m).1
unfolding butex_wake_all
butex_wake_all-Woken env b m =
    let d = drain_all b (m.waiters b) (nothing_drained m) in
    let c = drain_all-Collects b (m.waiters b) (nothing_drained m) in
    let p = wake_pthreads d.pthread_waiters (d.mem, 0) in
    assemble c
      (record {
        queue = drain_all-waiters b (m.waiters b) (nothing_drained m) refl;
        elsewhere = λ x h. refl;
        identities = refl;
        values = refl;
        containers = refl;
        calls = refl;
      })
      (wake_pthreads-Frame d.pthread_waiters d.mem 0)
      (wake_drained_all-Frame env d.bthread_waiters p.0 p.1)
      (wake_pthreads-Added d.pthread_waiters d.mem 0)
      (wake_drained_all-Added env d.bthread_waiters p.0 p.1)
      (wake_drained_all-answer env d.bthread_waiters p.0 p.1
        ∙ ap (λ (k : ℕ). k + length d.bthread_waiters)
            (wake_pthreads-answer d.pthread_waiters d.mem 0))
