-- ===== src/Butex/Except.antt =====
-- dbrpc/butex.cpp: `butex_wake_except`, and the queues and containers of the waiters.
use brpc_source_code_analysi.Prelude.{
  ℕ, ◌≡◌, refl, sym, ap, ◌+◌, ◌≤◌, List, [], ◌∷◌, arith, ◌==◌, ◌&&◌, not, if◌then◌else◌, Bool,
  Option, none, some, count, same, inl, inr, Bool-cases, ==_refl, count-append,
}
use mathlib.Core.Path.{subst}
use brpc_source_code_analysi.Butex.State.{Mem, Env, Waiter, IsLinked, set_waiters}
use brpc_source_code_analysi.Butex.Wake.{
  pop_head, Drained, nothing_drained, drain_except_one, drain_except, butex_wake_except,
  requeue_excluded,
}
use brpc_source_code_analysi.Butex.Frame.{Frame-trans, Frame-IsLinked, wake_pthreads-Frame}
use brpc_source_code_analysi.Butex.Linked.{
  drain_one-mem, drain_one-waiters, drain_one-excluded_waiter, wake_drained_except-Frame,
}

-- The waiter of bthread `excluded`.
abbrev pub is_excluded : (ℕ → Waiter) → ℕ → ℕ → Bool
is_excluded wt excluded w = not ((wt w).tid == 0) && ((wt w).tid == excluded)

-- How many waiters of the list belong to bthread `excluded`.
abbrev pub excluded_in : (ℕ → Waiter) → ℕ → List ℕ → ℕ
excluded_in wt excluded [] = 0
excluded_in wt excluded (w ∷ ws) =
    (if is_excluded wt excluded w then 1 else 0) + excluded_in wt excluded ws

abbrev pub held : Option ℕ → ℕ
held none = 0
held (some w) = 1

-- In step but for the waiter that is held back, which still names its container.
abbrev pub IsLinkedBut : ℕ → Option ℕ → Mem → Type 0
IsLinkedBut b ex m =
    (c w : ℕ)
    → count w (m.waiters c) + (if same ex (some w) && (b == c) then 1 else 0)
      ≡ (if same (m.container w) (some c) then 1 else 0)

-- The state of the loop, over the waiters that are left.
pub record Walk (b excluded : ℕ) (wt : ℕ → Waiter) (ws : List ℕ) (d : Drained) : Type 0 where
  pub rest : d.mem.waiters b ≡ ws
  pub identities : d.mem.waiter ≡ wt
  pub linked : IsLinkedBut b d.excluded_waiter d.mem
  pub single : held d.excluded_waiter + excluded_in wt excluded ws ≤ 1

pop_head-IsLinkedBut :
    (b front : ℕ) (ex : Option ℕ) (rest : List ℕ) (m : Mem)
    → m.waiters b ≡ front ∷ rest
    → IsLinkedBut b ex m
    → IsLinkedBut b ex (pop_head b front rest m)
pop_head-IsLinkedBut b front none rest m e h c w =
    ground (arith, h c w, h b w, h b front, h c front, ap (count w) e, ap (count front) e)
pop_head-IsLinkedBut b front (some x) rest m e h c w =
    ground (arith, h c w, h b w, h b front, h c front, ap (count w) e, ap (count front) e)

hold_back-IsLinkedBut :
    (b w : ℕ) (rest : List ℕ) (m : Mem)
    → m.waiters b ≡ w ∷ rest
    → IsLinkedBut b none m
    → IsLinkedBut b (some w) (set_waiters b rest m)
hold_back-IsLinkedBut b w rest m e h c x = ground (arith, h c x, h b x, ap (count x) e)

pub held-none : (ex : Option ℕ) (n : ℕ) → held ex + (1 + n) ≤ 1 → ex ≡ none
held-none none n h = refl
held-none (some w) n h = absurd (omega arith)

drain_except_one-Walk :
    (b excluded : ℕ) (w : ℕ) (ws : List ℕ) (d : Drained)
    → Walk b excluded d.mem.waiter (w ∷ ws) d
    → Walk b excluded d.mem.waiter ws (drain_except_one b excluded w ws d)
unfolding drain_except_one
drain_except_one-Walk b excluded w ws d v =
    elim (Bool-cases (is_excluded d.mem.waiter excluded w)) [
      | inl hit ↦
          let single : held d.excluded_waiter + (1 + excluded_in d.mem.waiter excluded ws) ≤ 1 =
            ground (arith, v.single, hit) in
          let free : d.excluded_waiter ≡ none = held-none d.excluded_waiter _ single in
          rw (hit, drain_except_one)
            (record {
              rest = rw (==_refl b) refl;
              identities = refl;
              linked =
                  hold_back-IsLinkedBut b w ws d.mem v.rest
                    (subst (λ (ex : Option ℕ). IsLinkedBut b ex d.mem) free v.linked);
              single = omega arith;
            })
      | inr miss ↦
          rw (miss, drain_except_one)
            (record {
              rest = drain_one-waiters b w ws d;
              identities = rw (drain_one-mem b w ws d) refl;
              linked =
                  rw (drain_one-mem b w ws d, drain_one-excluded_waiter b w ws d)
                    (pop_head-IsLinkedBut b w d.excluded_waiter ws d.mem v.rest v.linked);
              single = rw (drain_one-excluded_waiter b w ws d) (ground (arith, v.single, miss));
            })
    ]

drain_except-Walk :
    (b excluded : ℕ) (wt : ℕ → Waiter) (ws : List ℕ) (d : Drained)
    → Walk b excluded wt ws d
    → Walk b excluded wt [] (drain_except b excluded ws d)
unfolding drain_except
drain_except-Walk b excluded wt [] d v = v
drain_except-Walk b excluded wt (w ∷ ws) d v =
    drain_except-Walk b excluded wt ws (drain_except_one b excluded w ws d) (
      subst (λ (t : ℕ → Waiter). Walk b excluded t ws (drain_except_one b excluded w ws d))
        v.identities
        (drain_except_one-Walk b excluded w ws d
          (subst (λ (t : ℕ → Waiter). Walk b excluded t (w ∷ ws) d) (sym v.identities) v)))

requeue_excluded-IsLinked :
    (b : ℕ) (ex : Option ℕ) (m : Mem)
    → m.waiters b ≡ []
    → IsLinkedBut b ex m
    → IsLinked (requeue_excluded b ex m)
requeue_excluded-IsLinked b none m e h c w = omega (arith, h c w)
requeue_excluded-IsLinked b (some x) m e h c w =
    ground (arith, h c w, ap (count w) e, count-append w (m.waiters b) (x ∷ []))

pub butex_wake_except-IsLinked :
    (env : Env) (b excluded : ℕ) (m : Mem)
    → excluded_in m.waiter excluded (m.waiters b) ≤ 1
    → IsLinked m
    → IsLinked (butex_wake_except env b excluded m).0
unfolding butex_wake_except
butex_wake_except-IsLinked env b excluded m one h =
    let d = drain_except b excluded (m.waiters b) (nothing_drained m) in
    let v = drain_except-Walk b excluded m.waiter (m.waiters b) (nothing_drained m) (record {
      rest = refl;
      identities = refl;
      linked = λ c w. omega (arith, h c w);
      single = omega arith;
    }) in
    Frame-IsLinked
      (Frame-trans (wake_pthreads-Frame d.pthread_waiters _ 0)
        (wake_drained_except-Frame env d.bthread_waiters _ _))
      (requeue_excluded-IsLinked b d.excluded_waiter d.mem v.rest v.linked)
