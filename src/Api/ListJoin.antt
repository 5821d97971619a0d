-- ===== src/Api/ListJoin.antt =====
-- dbrpc/bthread.cpp: `bthread_list_join`.
--
-- The joins wait; `scripts` has what the pool becomes in the rounds of each of them, and `none` is the
-- answer while a join has not returned. INVALID_BTHREAD is 0.
use brpc_source_code_analysi.Prelude.{
  ℕ, zero, suc, ◌≡◌, refl, Option, none, some, List, [], ◌∷◌, Option-cases, inl, inr, arith, length,
}
use brpc_source_code_analysi.Task.Meta.{TidCodec, Pool}
use brpc_source_code_analysi.Task.Life.{Waited, join}
use brpc_source_code_analysi.Api.Lists.{TidList, BthreadList, ListResult, list_ok, list_einval}

module _ (C : TidCodec) (scripts : ℕ → List (Pool × Waited)) (self : Option ℕ) where
  -- `TidJoiner` on each identifier, and what it writes over them.
  unfoldable pub join_each : (round : ℕ) → List ℕ → Pool → Option (Pool × List ℕ)
  join_each round [] p = some (p, [])
  join_each round (id ∷ ids) p = elim (join C (scripts round) self id p) [
    | none ↦ none
    | some (p', result) ↦ elim (join_each (suc round) ids p') [
      | none ↦ none
      | some (p'', written) ↦ some (p'', 0 ∷ written)
    ]
  ]

  unfoldable pub bthread_list_join :
      (T : TidList) → BthreadList T → Pool → Option (Pool × BthreadList T × ListResult T)
  bthread_list_join T l p = elim l.impl [
    | none ↦ some (p, l, list_einval)
    | some x ↦ elim (join_each 0 (T.ids x) p) [
      | none ↦ none
      | some (p', written) ↦ some (p', record l { impl = some (T.store written x) }, list_ok)
    ]
  ]

abbrev zeros : ℕ → List ℕ
zeros zero = []
zeros (suc n) = 0 ∷ zeros n

join_each-zeros :
    (C : TidCodec) (scripts : ℕ → List (Pool × Waited)) (self : Option ℕ) (round : ℕ)
    (ids written : List ℕ) (p p' : Pool)
    → join_each C scripts self round ids p ≡ some (p', written)
    → written ≡ zeros (length ids)
unfolding join_each
join_each-zeros C scripts self round [] written p p' e = ground (arith, e)
join_each-zeros C scripts self round (id ∷ ids) written p p' e =
    elim (Option-cases (join C (scripts round) self id p)) [
      | inl waits ↦ absurd (ground (arith, waits, e))
      | inr ((p1, result), joined) ↦
          elim (Option-cases (join_each C scripts self (suc round) ids p1)) [
            | inl waits ↦ absurd (ground (arith, joined, waits, e))
            | inr ((p2, more), rest) ↦ ground (
              arith,
              joined,
              rest,
              e,
              join_each-zeros C scripts self (suc round) ids more p1 p2 rest,
            )
          ]
    ]

join_zeros :
    (C : TidCodec) (scripts : ℕ → List (Pool × Waited)) (self : Option ℕ) (round n : ℕ) (p : Pool)
    → join_each C scripts self round (zeros n) p ≡ some (p, zeros n)
unfolding join_each join
join_zeros C scripts self round zero p = refl
join_zeros C scripts self round (suc n) p =
    ground (arith, join_zeros C scripts self (suc round) n p)

-- When `bthread_list_join` has returned, a second call on the list returns at once, with the same
-- answer and without touching a bthread, whoever makes it and whatever the bthreads are by then.
pub bthread_list_join-again :
    (C : TidCodec) (T : TidList) (scripts scripts' : ℕ → List (Pool × Waited))
    (self self' : Option ℕ) (l l' : BthreadList T) (p p' later : Pool) (answer : ListResult T)
    → bthread_list_join C scripts self T l p ≡ some (p', l', answer)
    → (l'' : BthreadList T) × (bthread_list_join C scripts' self' T l' later
        ≡ some (later, l'', answer))
unfolding bthread_list_join
bthread_list_join-again C T scripts scripts' self self' l l' p p' later answer e =
    elim (Option-cases l.impl) [
      | inl missing ↦ (l, ground (arith, missing, e))
      | inr (x, made) ↦ elim (Option-cases (join_each C scripts self 0 (T.ids x) p)) [
        | inl waits ↦ absurd (ground (arith, made, waits, e))
        | inr ((p1, written), ran) ↦
            let cleared = join_each-zeros C scripts self 0 (T.ids x) written p p1 ran in
            let n = length (T.ids x) in
            (
              record l { impl = some (T.store (zeros n) (T.store (zeros n) x)) },
              ground (
                arith,
                made,
                ran,
                cleared,
                e,
                T.ids-store (zeros n) x,
                join_zeros C scripts' self' 0 n later,
              ),
            )
      ]
    ]
