-- ===== src/Butex/OrderExcept.antt =====
-- dbrpc/butex.cpp: whom `butex_wake_except` wakes, and who keeps waiting.
use mathlib.Core.Path.{subst}
use mathlib.Core.List.{append-nil}
use brpc_source_code_analysi.Prelude.{
  ℕ, ◌≡◌, refl, ◌∙◌, sym, ap, ◌+◌, ◌≤◌, List, [], ◌∷◌, ◌++◌, arith, true, false, none, some, Option,
  length, inl, inr, Bool-cases, ==_refl, if◌then◌else◌,
}
use brpc_source_code_analysi.Butex.State.{Mem, Env, Waiter, set_waiters}
use brpc_source_code_analysi.Butex.Wake.{
  Drained, nothing_drained, drain_one, drain_except_one, drain_except, requeue_excluded,
  wake_pthreads, butex_wake_except,
}
use brpc_source_code_analysi.Butex.Frame.{wake_pthreads-Frame}
use brpc_source_code_analysi.Butex.Linked.{
  drain_one-waiters, drain_one-excluded_waiter, wake_drained_except-Frame,
}
use brpc_source_code_analysi.Butex.Woken.{
  Woken, wake_pthreads-Added, wake_pthreads-answer, wake_drained_except-Added,
  wake_drained_except-answer,
}
use brpc_source_code_analysi.Butex.Except.{is_excluded, excluded_in, held, held-none}
use brpc_source_code_analysi.Butex.Collect.{Collects, Collects-trans, drain_one-Collects}
use brpc_source_code_analysi.Butex.Order.{Released, assemble}

-- The queue without, and only, the waiters of the excluded bthread.
abbrev pub without : (ℕ → Waiter) → ℕ → List ℕ → List ℕ
without wt x [] = []
without wt x (w ∷ ws) = if is_excluded wt x w then without wt x ws else w ∷ without wt x ws

abbrev pub only : (ℕ → Waiter) → ℕ → List ℕ → List ℕ
only wt x [] = []
only wt x (w ∷ ws) = if is_excluded wt x w then w ∷ only wt x ws else only wt x ws

abbrev to_list : Option ℕ → List ℕ
to_list none = []
to_list (some w) = w ∷ []

-- The part of `Collects` that a round for the excluded waiter keeps.
skip-Collects :
    (b w : ℕ) (rest ws : List ℕ) (d d' : Drained)
    → Collects b ws (record d { mem = set_waiters b rest d.mem; excluded_waiter = some w }) d'
    → Collects b ws d d'
skip-Collects b w rest ws d d' c = record {
  to_bthreads = c.to_bthreads;
  to_pthreads = c.to_pthreads;
  identities = c.identities;
  values = c.values;
  no_calls = c.no_calls;
  others = λ x h. c.others x h ∙ rw h refl;
  unowned = c.unowned;
  stays = c.stays;
}

drain_except-Collects :
    (b x : ℕ) (ws : List ℕ) (d : Drained)
    → Collects b (without d.mem.waiter x ws) d (drain_except b x ws d)
unfolding drain_except drain_except_one
drain_except-Collects b x [] d = record {
  to_bthreads = sym (append-nil _);
  to_pthreads = sym (append-nil _);
  identities = refl;
  values = refl;
  no_calls = refl;
  others = λ c h. refl;
  unowned = λ w h. absurd (omega arith);
  stays = λ w h. h;
}
drain_except-Collects b x (w ∷ ws) d = elim (Bool-cases (is_excluded d.mem.waiter x w)) [
  | inl hit ↦
      rw (hit, drain_except_one)
        (skip-Collects b w ws _ d _ (
          drain_except-Collects b x ws
            (record d { mem = set_waiters b ws d.mem; excluded_waiter = some w })))
  | inr miss ↦
      rw (miss, drain_except_one)
        (Collects-trans (drain_one-Collects b w ws d) (
          subst
            (λ (wt : ℕ → Waiter).
              Collects b (without wt x ws) (drain_one b w ws d)
                (drain_except b x ws (drain_one b w ws d)))
            (drain_one-Collects b w ws d).identities
            (drain_except-Collects b x ws (drain_one b w ws d))))
]

drain_except-waiters :
    (b x : ℕ) (ws : List ℕ) (d : Drained)
    → d.mem.waiters b ≡ ws
    → (drain_except b x ws d).mem.waiters b ≡ []
unfolding drain_except drain_except_one
drain_except-waiters b x [] d e = e
drain_except-waiters b x (w ∷ ws) d e =
    drain_except-waiters b x ws (drain_except_one b x w ws d)
      (ground (arith, drain_one-waiters b w ws d, ==_refl b))

drain_except_one-hit :
    (b x w : ℕ) (ws : List ℕ) (d : Drained)
    → is_excluded d.mem.waiter x w ≡ true
    → drain_except_one b x w ws d
      ≡ record d { mem = set_waiters b ws d.mem; excluded_waiter = some w }
unfolding drain_except_one
drain_except_one-hit b x w ws d hit = rw (hit, drain_except_one)

drain_except_one-miss :
    (b x w : ℕ) (ws : List ℕ) (d : Drained)
    → is_excluded d.mem.waiter x w ≡ false
    → drain_except_one b x w ws d ≡ drain_one b w ws d
unfolding drain_except_one
drain_except_one-miss b x w ws d miss = rw (miss, drain_except_one)

-- With one waiter of the excluded bthread at most, none is lost.
drain_except-excluded :
    (b x : ℕ) (ws : List ℕ) (d : Drained)
    → held d.excluded_waiter + excluded_in d.mem.waiter x ws ≤ 1
    → to_list (drain_except b x ws d).excluded_waiter
      ≡ to_list d.excluded_waiter ++ only d.mem.waiter x ws
unfolding drain_except
drain_except-excluded b x [] d one = sym (append-nil _)
drain_except-excluded b x (w ∷ ws) d one = elim (Bool-cases (is_excluded d.mem.waiter x w)) [
  | inl hit ↦
      let free : d.excluded_waiter ≡ none =
        held-none d.excluded_waiter (excluded_in d.mem.waiter x ws) (ground (arith, one, hit)) in
      ap excluded_after (drain_except_one-hit b x w ws d hit)
      ∙ drain_except-excluded b x ws
          (record d { mem = set_waiters b ws d.mem; excluded_waiter = some w })
          (ground (arith, one, hit, free))
      ∙ sym (ap (λ (ex : Option ℕ). to_list ex ++ w ∷ only d.mem.waiter x ws) free)
      ∙ rw hit refl
  | inr miss ↦
      let same_waiter = (drain_one-Collects b w ws d).identities in
      ap excluded_after (drain_except_one-miss b x w ws d miss)
      ∙ drain_except-excluded b x ws (drain_one b w ws d)
          (rw (drain_one-excluded_waiter b w ws d, same_waiter) (ground (arith, one, miss)))
      ∙ rw (drain_one-excluded_waiter b w ws d, same_waiter, miss) refl
]
  where
    excluded_after : Drained → List ℕ
    excluded_after d' = to_list (drain_except b x ws d').excluded_waiter

requeue_excluded-Released :
    (b : ℕ) (d : Drained)
    → d.mem.waiters b ≡ []
    → Released b (to_list d.excluded_waiter) d (requeue_excluded b d.excluded_waiter d.mem)
requeue_excluded-Released b d e = go d.excluded_waiter
  where
    go : (ex : Option ℕ) → Released b (to_list ex) d (requeue_excluded b ex d.mem)
    go none = record {
      queue = e;
      elsewhere = λ c h. refl;
      identities = refl;
      values = refl;
      containers = refl;
      calls = refl;
    }
    go (some w) = record {
      queue = rw (==_refl b, e) refl;
      elsewhere = λ c h. rw h refl;
      identities = refl;
      values = refl;
      containers = refl;
      calls = refl;
    }

-- `butex_wake_except` wakes all waiters but the excluded bthread, which keeps waiting, and returns
-- how many it woke. The excluded bthread has one waiter in the queue at most.
pub butex_wake_except-Woken :
    (env : Env) (b x : ℕ) (m : Mem)
    → excluded_in m.waiter x (m.waiters b) ≤ 1
    → Woken m b
        (without m.waiter x (m.waiters b))
        (only m.waiter x (m.waiters b))
        (butex_wake_except env b x m).0
        (butex_wake_except env b x m).1
unfolding butex_wake_except
butex_wake_except-Woken env b x m one =
    let d = drain_except b x (m.waiters b) (nothing_drained m) in
    let m1 = requeue_excluded b d.excluded_waiter d.mem in
    let p = wake_pthreads d.pthread_waiters (m1, 0) in
    assemble (drain_except-Collects b x (m.waiters b) (nothing_drained m))
      (subst (λ (k : List ℕ). Released b k d m1)
        (drain_except-excluded b x (m.waiters b) (nothing_drained m) (omega (arith, one)))
        (requeue_excluded-Released b d
          (drain_except-waiters b x (m.waiters b) (nothing_drained m) refl)))
      (wake_pthreads-Frame d.pthread_waiters m1 0)
      (wake_drained_except-Frame env d.bthread_waiters p.0 p.1)
      (wake_pthreads-Added d.pthread_waiters m1 0)
      (wake_drained_except-Added env d.bthread_waiters p.0 p.1)
      (wake_drained_except-answer env d.bthread_waiters p.0 p.1
        ∙ ap (λ (k : ℕ). k + length d.bthread_waiters)
            (wake_pthreads-answer d.pthread_waiters m1 0))
