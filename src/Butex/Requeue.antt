-- ===== src/Butex/Requeue.antt =====
-- dbrpc/butex.cpp: the loop of `butex_requeue`, between two butexes and as it is called.
use mathlib.Core.Path.{subst}
use mathlib.Core.List.{append-nil, append_assoc}
use brpc_source_code_analysi.Prelude.{
  ℕ, zero, suc, ◌≡◌, refl, sym, ap, ◌∙◌, ◌<◌, ◌==◌, Bool, true, false, Option, none, some, List, [],
  ◌∷◌, ◌++◌, reverse, arith, length, count, ==_refl, ==_comm, Bool-cases, inl, inr,
}
use brpc_source_code_analysi.Butex.State.{
  Mem, Env, Waiter, Call, set_waiters, set_container, resumed, signalled_pthreads,
}
use brpc_source_code_analysi.Butex.Wake.{pop_head, run_front}
use brpc_source_code_analysi.Butex.Frame.{run_front-Frame}
use brpc_source_code_analysi.Butex.Order.{first, others, run_front-Added}
use brpc_source_code_analysi.Butex.Woken.{Added, bthreads, pthreads, tids}
use brpc_source_code_analysi.Butex.Wait.{requeue_rest, requeue_to, requeue_between, butex_requeue}

-- One round: the head of `b` goes to the end of `m`.
abbrev pub move_one : ℕ → ℕ → ℕ → List ℕ → Mem → Mem
move_one b m bw rest mem =
    let unlinked = set_waiters b rest mem in
    set_container bw (some m) (set_waiters m (unlinked.waiters m ++ bw ∷ []) unlinked)

pub requeue_rest-step :
    (fuel b m bw : ℕ) (rest : List ℕ) (mem : Mem)
    → mem.waiters b ≡ bw ∷ rest
    → requeue_rest (suc fuel) b m mem ≡ requeue_rest fuel b m (move_one b m bw rest mem)
unfolding requeue_rest
requeue_rest-step fuel b m bw rest mem e = rw (e, requeue_rest)

pub requeue_rest-done :
    (fuel b m : ℕ) (mem : Mem) → mem.waiters b ≡ [] → requeue_rest (suc fuel) b m mem ≡ some mem
unfolding requeue_rest
requeue_rest-done fuel b m mem e = rw (e, requeue_rest)

snoc-cons : (ws : List ℕ) (w : ℕ) → (a : ℕ) × (r : List ℕ) × (ws ++ w ∷ [] ≡ a ∷ r)
snoc-cons [] w = (w, [], refl)
snoc-cons (x ∷ ws) w = (x, ws ++ w ∷ [], refl)

-- A butex whose waiters are moved to itself never runs empty.
pub requeue_rest_self :
    (fuel b bw : ℕ) (rest : List ℕ) (mem : Mem)
    → mem.waiters b ≡ bw ∷ rest
    → requeue_rest fuel b b mem ≡ none
unfolding requeue_rest
requeue_rest_self zero b bw rest mem e = refl
requeue_rest_self (suc fuel) b bw rest mem e =
    let (a, r, s) = snoc-cons rest bw in
    requeue_rest-step fuel b b bw rest mem e
    ∙ requeue_rest_self fuel b a r (move_one b b bw rest mem) (rw (==_refl b) s)

-- What the loop achieves between different butexes.
pub record Requeued (b m : ℕ) (mem mem' : Mem) : Type 0 where
  pub emptied : mem'.waiters b ≡ []
  pub appended : mem'.waiters m ≡ mem.waiters m ++ mem.waiters b
  pub others : (c : ℕ) → (b == c) ≡ false → (m == c) ≡ false → mem'.waiters c ≡ mem.waiters c
  pub owned : (w : ℕ) → 0 < count w (mem.waiters b) → mem'.container w ≡ some m
  pub stays : (w : ℕ) → mem.container w ≡ some m → mem'.container w ≡ some m

module _ (b m bw : ℕ) (rest : List ℕ) (mem : Mem) (ne : (b == m) ≡ false)
    (e : mem.waiters b ≡ bw ∷ rest) where
  pub move_one-from : (move_one b m bw rest mem).waiters b ≡ rest
  move_one-from = rw (==_comm m b, ne, ==_refl b) refl

  pub move_one-to : (move_one b m bw rest mem).waiters m ≡ mem.waiters m ++ bw ∷ []
  move_one-to = rw (==_refl m, ne) refl

  move_one-Requeued :
      {mem' : Mem} → Requeued b m (move_one b m bw rest mem) mem' → Requeued b m mem mem'
  move_one-Requeued q = record {
    emptied = q.emptied;
    appended =
        q.appended
        ∙ rw (move_one-from, move_one-to, e) (append_assoc (mem.waiters m) (bw ∷ []) rest);
    others = λ c h k. q.others c h k ∙ rw (k, h) refl;
    owned = λ w h. ground (arith, move_one-from, q.owned w, q.stays w, h, ap (count w) e);
    stays = λ w h. q.stays w (ground arith);
  }

-- The loop of `butex_requeue` ends between different butexes, with one round more than there are
-- waiters, and has then moved all of them, in order, behind those of the other butex.
pub requeue_rest-Requeued :
    (fuel b m : ℕ) (ws : List ℕ) (mem : Mem)
    → (b == m) ≡ false
    → mem.waiters b ≡ ws
    → length ws < fuel
    → (mem' : Mem) × (requeue_rest fuel b m mem ≡ some mem') × Requeued b m mem mem'
requeue_rest-Requeued zero b m ws mem ne e enough = absurd (omega arith)
requeue_rest-Requeued (suc fuel) b m [] mem ne e enough = (
  mem,
  requeue_rest-done fuel b m mem e,
  record {
    emptied = e;
    appended = rw (e, append-nil (mem.waiters m)) refl;
    others = λ c h k. refl;
    owned = λ w h. absurd (omega (arith, h, ap (count w) e));
    stays = λ w h. h;
  },
)
requeue_rest-Requeued (suc fuel) b m (bw ∷ rest) mem ne e enough =
    let (mem', run, q) =
      requeue_rest-Requeued fuel b m rest (move_one b m bw rest mem) ne
        (move_one-from b m bw rest mem ne e) (omega (arith, enough)) in
    (mem', requeue_rest-step fuel b m bw rest mem e ∙ run, move_one-Requeued b m bw rest mem ne e q)

-- The loop moves waiters and does nothing else.
pub record Untouched (mem mem' : Mem) : Type 0 where
  pub same_value : mem'.value ≡ mem.value
  pub same_waiter : mem'.waiter ≡ mem.waiter
  pub same_calls : mem'.calls ≡ mem.calls

pub requeue_rest-Untouched :
    (fuel b m : ℕ) (mem mem' : Mem) → requeue_rest fuel b m mem ≡ some mem' → Untouched mem mem'
unfolding requeue_rest
requeue_rest-Untouched zero b m mem mem' e = cc
requeue_rest-Untouched (suc fuel) b m mem mem' e =
    go (mem.waiters b) refl (λ mem1. requeue_rest-Untouched fuel b m mem1 mem')
  where
    go :
        (ws : List ℕ)
        → mem.waiters b ≡ ws
        → ((mem1 : Mem) → requeue_rest fuel b m mem1 ≡ some mem' → Untouched mem1 mem')
        → Untouched mem mem'
    go [] w ih =
        subst (Untouched mem) {x = mem} {y = mem'} (cc (requeue_rest-done fuel b m mem w))
          (record { same_value = refl; same_waiter = refl; same_calls = refl })
    go (bw ∷ rest) w ih =
        let u =
          ih (move_one b m bw rest mem) (sym (requeue_rest-step fuel b m bw rest mem w) ∙ e) in
        record { same_value = u.same_value; same_waiter = u.same_waiter; same_calls = u.same_calls }

-- Moving the others first makes no difference to the waking of the front.
pub run_front-moved :
    (env : Env) (front : ℕ) (mem mem1 : Mem)
    → Untouched mem mem1
    → Added mem
        (run_front env front mem1)
        (reverse (pthreads mem.waiter (front ∷ [])))
        (tids mem.waiter (bthreads mem.waiter (front ∷ [])))
run_front-moved env front mem mem1 u =
    let a = run_front-Added env front mem1 in
    record {
      new_signals =
          a.new_signals
          ∙ ap
              (λ (wt : ℕ → Waiter).
                reverse (pthreads wt (front ∷ [])) ++ signalled_pthreads mem1.calls)
              u.same_waiter
          ∙ ap
              (λ (cs : List Call).
                reverse (pthreads mem.waiter (front ∷ [])) ++ signalled_pthreads cs)
              u.same_calls;
      new_resumes =
          a.new_resumes
          ∙ ap (λ (wt : ℕ → Waiter). tids wt (bthreads wt (front ∷ [])) ++ resumed mem1.calls)
              u.same_waiter
          ∙ ap
              (λ (cs : List Call). tids mem.waiter (bthreads mem.waiter (front ∷ [])) ++ resumed cs)
              u.same_calls;
    }

-- What the body of `butex_requeue` does between two butexes, as many waiters as there are.
pub record MovedRest (b m : ℕ) (mem : Mem) (result : Option (Mem × ℕ)) : Type 0 where
  pub after : Mem
  pub returns : result ≡ some (after, length (first (mem.waiters b)))
  pub signals :
      signalled_pthreads after.calls
      ≡ reverse (pthreads mem.waiter (first (mem.waiters b))) ++ signalled_pthreads mem.calls
  pub resumes :
      resumed after.calls
      ≡ tids mem.waiter (bthreads mem.waiter (first (mem.waiters b))) ++ resumed mem.calls
  pub emptied : after.waiters b ≡ []
  pub appended : after.waiters m ≡ mem.waiters m ++ others (mem.waiters b)
  pub elsewhere : (c : ℕ) → (b == c) ≡ false → (m == c) ≡ false → after.waiters c ≡ mem.waiters c
  pub owned : (w : ℕ) → 0 < count w (others (mem.waiters b)) → after.container w ≡ some m

requeue_to-MovedRest :
    (env : Env) (fuel b m : ℕ) (mem : Mem)
    → (b == m) ≡ false
    → length (mem.waiters b) < fuel
    → MovedRest b m mem (requeue_to env fuel b m mem)
requeue_to-MovedRest env fuel b m mem ne enough = go (mem.waiters b) refl
  where
    go : (ws : List ℕ) → mem.waiters b ≡ ws → MovedRest b m mem (requeue_to env fuel b m mem)
    go [] e = record {
      after = mem;
      returns = ground (arith, e);
      signals = ground (arith, e);
      resumes = ground (arith, e);
      emptied = e;
      appended = rw e (sym (append-nil (mem.waiters m)));
      elsewhere = λ c h k. refl;
      owned = λ w h. absurd (omega (arith, rw e at h));
    }
    go (front ∷ rest) e =
        let popped = pop_head b front rest mem in
        let at_b : popped.waiters b ≡ rest = rw (==_refl b) refl in
        let (mem1, run, q) =
          requeue_rest-Requeued fuel b m rest popped ne at_b (omega (arith, enough, ap length e)) in
        let f = run_front-Frame env front mem1 in
        let woken =
          run_front-moved env front popped mem1 (requeue_rest-Untouched fuel b m popped mem1 run) in
        record {
          after = run_front env front mem1;
          returns = ground (arith, e, run);
          signals =
              subst
                (λ (ws : List ℕ).
                  signalled_pthreads (run_front env front mem1).calls
                  ≡ reverse (pthreads mem.waiter (first ws)) ++ signalled_pthreads mem.calls)
                (sym e) (woken.new_signals);
          resumes =
              subst
                (λ (ws : List ℕ).
                  resumed (run_front env front mem1).calls
                  ≡ tids mem.waiter (bthreads mem.waiter (first ws)) ++ resumed mem.calls)
                (sym e) (woken.new_resumes);
          emptied = rw f.same_waiters q.emptied;
          appended = rw (f.same_waiters, e) (q.appended ∙ rw (ne, ==_refl b) refl);
          elsewhere = λ c h k. rw f.same_waiters (q.others c h k ∙ rw h refl);
          owned = λ w h. rw f.same_container (q.owned w (rw at_b (rw e at h)));
        }

-- `butex_requeue` computes both of its butexes from `arg`, and `double_lock` does not return for two
-- locks of one mutex: the call never returns, for any number of waiters, whatever `arg2` is. The same
-- body returns between two different butexes whose locks it gets, when the fuel is above the number
-- of waiters: one waiter at most is woken, the one that waited longest, and the others are queued in
-- order behind those of the other butex, which is their container then.
pub butex_requeue_deadlocks :
    (double_lock : ℕ → ℕ → Bool) (env : Env) (fuel fuel' arg arg2 b m : ℕ) (mem : Mem)
    → ((x : ℕ) → double_lock x x ≡ false)
    → double_lock b m ≡ true
    → length (mem.waiters b) < fuel'
    → (butex_requeue double_lock env fuel arg arg2 mem ≡ none)
      × MovedRest b m mem (requeue_between double_lock env fuel' b m mem)
unfolding butex_requeue requeue_between
butex_requeue_deadlocks double_lock env fuel fuel' arg arg2 b m mem self locks enough =
    let ne : (b == m) ≡ false = elim (Bool-cases (b == m)) [
      | inr other ↦ other
      | inl one ↦ absurd (ground (arith, one, self b, locks))
    ] in
    (
      rw (self arg, butex_requeue, requeue_between) refl,
      subst (MovedRest b m mem) {x = requeue_to env fuel' b m mem}
          (rw (locks, requeue_between) refl) (requeue_to-MovedRest env fuel' b m mem ne enough),
    )
