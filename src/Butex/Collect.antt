-- ===== src/Butex/Collect.antt =====
-- dbrpc/butex.cpp: the loops under `waiter_lock` sort the waiters into local lists.
use mathlib.Core.List.{append_assoc, append-nil}
use brpc_source_code_analysi.Prelude.{
  ℕ, ◌≡◌, refl, ◌∙◌, sym, ap, ◌<◌, List, [], ◌∷◌, ◌++◌, arith, ◌==◌, false, none, count, inl, inr,
  Bool-cases,
}
use brpc_source_code_analysi.Butex.State.{Waiter, is_pthread}
use brpc_source_code_analysi.Butex.Wake.{Drained, drain_one, drain_all}
use brpc_source_code_analysi.Butex.Woken.{bthreads, pthreads}

-- What a loop under the lock leaves: the waiters sorted into the local lists, in order.
pub record Collects (b : ℕ) (ws : List ℕ) (d d' : Drained) : Type 0 where
  pub to_bthreads : d'.bthread_waiters ≡ d.bthread_waiters ++ bthreads d.mem.waiter ws
  pub to_pthreads : d'.pthread_waiters ≡ d.pthread_waiters ++ pthreads d.mem.waiter ws
  pub identities : d'.mem.waiter ≡ d.mem.waiter
  pub values : d'.mem.value ≡ d.mem.value
  pub no_calls : d'.mem.calls ≡ d.mem.calls
  pub others : (c : ℕ) → (b == c) ≡ false → d'.mem.waiters c ≡ d.mem.waiters c
  pub unowned : (w : ℕ) → 0 < count w ws → d'.mem.container w ≡ none
  pub stays : (w : ℕ) → d.mem.container w ≡ none → d'.mem.container w ≡ none

pub drain_one-Collects :
    (b w : ℕ) (rest : List ℕ) (d : Drained) → Collects b (w ∷ []) d (drain_one b w rest d)
unfolding drain_one
drain_one-Collects b w rest d = elim (Bool-cases (is_pthread d.mem w)) [
  | inl p ↦
      rw (p, drain_one)
        (record {
          to_bthreads = rw p (sym (append-nil _));
          to_pthreads = rw p refl;
          identities = refl;
          values = refl;
          no_calls = refl;
          others = λ c h. rw h refl;
          unowned = λ x h. ground arith;
          stays = λ x h. ground arith;
        })
  | inr p ↦
      rw (p, drain_one)
        (record {
          to_bthreads = rw p refl;
          to_pthreads = rw p (sym (append-nil _));
          identities = refl;
          values = refl;
          no_calls = refl;
          others = λ c h. rw h refl;
          unowned = λ x h. ground arith;
          stays = λ x h. ground arith;
        })
]

bthreads-cons :
    (wt : ℕ → Waiter) (w : ℕ) (ws : List ℕ)
    → bthreads wt (w ∷ []) ++ bthreads wt ws ≡ bthreads wt (w ∷ ws)
bthreads-cons wt w ws = ground arith

pthreads-cons :
    (wt : ℕ → Waiter) (w : ℕ) (ws : List ℕ)
    → pthreads wt (w ∷ []) ++ pthreads wt ws ≡ pthreads wt (w ∷ ws)
pthreads-cons wt w ws = ground arith

pub Collects-trans :
    {b : ℕ} {w : ℕ} {ws : List ℕ} {d d' d'' : Drained}
    → Collects b (w ∷ []) d d'
    → Collects b ws d' d''
    → Collects b (w ∷ ws) d d''
Collects-trans {b} {w} {ws} {d} {d'} {d''} f g = record {
  to_bthreads =
      g.to_bthreads
      ∙ rw (f.to_bthreads, f.identities, append_assoc)
          (ap (◌++◌ d.bthread_waiters) (bthreads-cons d.mem.waiter w ws));
  to_pthreads =
      g.to_pthreads
      ∙ rw (f.to_pthreads, f.identities, append_assoc)
          (ap (◌++◌ d.pthread_waiters) (pthreads-cons d.mem.waiter w ws));
  identities = g.identities ∙ f.identities;
  values = g.values ∙ f.values;
  no_calls = g.no_calls ∙ f.no_calls;
  others = λ c h. g.others c h ∙ f.others c h;
  unowned = λ x h. elim (Bool-cases (w == x)) [
    | inl hit ↦ g.stays x (f.unowned x (rw hit (omega arith)))
    | inr miss ↦ g.unowned x (ground (arith, h, miss))
  ];
  stays = λ x h. g.stays x (f.stays x h);
}

pub drain_all-Collects : (b : ℕ) (ws : List ℕ) (d : Drained) → Collects b ws d (drain_all b ws d)
unfolding drain_all
drain_all-Collects b [] d = record {
  to_bthreads = sym (append-nil _);
  to_pthreads = sym (append-nil _);
  identities = refl;
  values = refl;
  no_calls = refl;
  others = λ c h. refl;
  unowned = λ x h. absurd (omega arith);
  stays = λ x h. h;
}
drain_all-Collects b (w ∷ ws) d =
    Collects-trans (drain_one-Collects b w ws d) (drain_all-Collects b ws (drain_one b w ws d))
