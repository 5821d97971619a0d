-- ===== src/Api/Lists.antt =====
-- dbrpc/bthread.cpp: lists of bthreads.
--
-- `ListOfABAFreeId` is defined outside the repository and taken as an interface: `ids` are the
-- identifiers in the order in which `apply` gives them to its function, and `store` is what `apply`
-- leaves when the function writes to its argument. The answer of `add` is an errno.
use mathlib.Core.Path.{subst}
use brpc_source_code_analysi.Prelude.{
  ℕ, dec_lt, ◌⊎◌, ◌≡◌, ◌<◌, ◌==◌, if◌then◌else◌, Bool, true, false, Option, none, some, List, [],
  ◌∷◌, ◌++◌, count, arith, Bool-cases, Option-cases, inl, inr, ==_eq,
}
use brpc_source_code_analysi.Butex.State.{Unscheduled}
use brpc_source_code_analysi.Task.Meta.{TidCodec, Pool, set_stopped, is_stopped, address_meta}
use brpc_source_code_analysi.Task.Interrupt.{
  Call, interrupt, interrupt_and_consume_waiters, wake_interrupted, set_butex_waiter,
}
use brpc_source_code_analysi.Api.Dispatch.{bthread_stop}

pub record TidList : Type 1 where
  pub Impl : Type 0
  pub empty : Impl
  pub add : ℕ → Impl → Impl × ℕ
  pub ids : Impl → List ℕ
  pub store : List ℕ → Impl → Impl
  pub ids-store : (written : List ℕ) (l : Impl) → ids (store written l) ≡ written

module _ (T : TidList) where
  -- `bthread_list_t`.
  pub record BthreadList : Type 0 where
    pub impl : Option T.Impl
    pub head : ℕ
    pub size : ℕ
    pub conflict_head : ℕ
    pub conflict_size : ℕ

  -- The errors of the functions on lists; `add` passes its own on.
  pub data ListResult : Type 0 where
    list_ok list_enomem list_einval : ListResult
    list_added : (errno : ℕ) → ListResult

  unfoldable pub bthread_list_init : (has_memory : Bool) → BthreadList → BthreadList × ListResult
  bthread_list_init has_memory l =
      if has_memory
      then (
        record l { impl = some T.empty; head = 0; size = 0; conflict_head = 0; conflict_size = 0 },
        list_ok,
      )
      else (record l { impl = none }, list_enomem)

  unfoldable pub bthread_list_destroy : BthreadList → BthreadList
  bthread_list_destroy l = record l { impl = none }

  unfoldable pub bthread_list_add : ℕ → BthreadList → BthreadList × ListResult
  bthread_list_add id l = elim l.impl [
    | none ↦ (l, list_einval)
    | some x ↦ let (x', errno) = T.add id x in (record l { impl = some x' }, list_added errno)
  ]

module _ (C : TidCodec) (timer_unschedule : ℕ → Unscheduled) (has_group has_control : Bool) where
  -- `TidStopper` on each identifier, with the calls newest first.
  unfoldable pub stop_each : List ℕ → Pool × List Call → Pool × List Call
  stop_each [] (p, calls) = (p, calls)
  stop_each (id ∷ ids) (p, calls) =
      let (p', made, result) = bthread_stop C timer_unschedule has_group has_control id p in
      stop_each ids (p', made ++ calls)

  unfoldable pub bthread_list_stop :
      (T : TidList) → BthreadList T → Pool → Pool × List Call × ListResult T
  bthread_list_stop T l p = elim l.impl [
    | none ↦ (p, [], list_einval)
    | some x ↦ let (p', calls) = stop_each (T.ids x) (p, []) in (p', calls, list_ok)
  ]

  set_stopped-stops : (t : ℕ) (p : Pool) → is_stopped C t (set_stopped C t p) ≡ true
  unfolding is_stopped set_stopped address_meta
  set_stopped-stops t p = ground arith

  set_stopped-keeps :
      (t id : ℕ) (p : Pool) → is_stopped C t p ≡ true → is_stopped C t (set_stopped C id p) ≡ true
  unfolding is_stopped set_stopped address_meta
  set_stopped-keeps t id p h = ground (arith, h)

  interrupt-keeps :
      (t id : ℕ) (p : Pool)
      → is_stopped C t p ≡ true
      → is_stopped C t (interrupt C timer_unschedule has_group has_control id p).0 ≡ true
  unfolding is_stopped interrupt interrupt_and_consume_waiters wake_interrupted set_butex_waiter
      address_meta
  interrupt-keeps t id p h = ground (arith, h)

  bthread_stop-stops :
      (t : ℕ) (p : Pool)
      → is_stopped C t (bthread_stop C timer_unschedule has_group has_control t p).0 ≡ true
  unfolding bthread_stop
  bthread_stop-stops t p = interrupt-keeps t t (set_stopped C t p) (set_stopped-stops t p)

  bthread_stop-keeps :
      (t id : ℕ) (p : Pool)
      → is_stopped C t p ≡ true
      → is_stopped C t (bthread_stop C timer_unschedule has_group has_control id p).0 ≡ true
  unfolding bthread_stop
  bthread_stop-keeps t id p h =
      interrupt-keeps t id (set_stopped C id p) (set_stopped-keeps t id p h)

  stop_each-keeps :
      (t : ℕ) (ids : List ℕ) (p : Pool) (calls : List Call)
      → is_stopped C t p ≡ true
      → is_stopped C t (stop_each ids (p, calls)).0 ≡ true
  unfolding stop_each
  stop_each-keeps t [] p calls h = h
  stop_each-keeps t (id ∷ ids) p calls h = stop_each-keeps t ids _ _ (bthread_stop-keeps t id p h)

  stop_each-stops :
      (t : ℕ) (ids : List ℕ) (p : Pool) (calls : List Call)
      → 0 < count t ids
      → is_stopped C t (stop_each ids (p, calls)).0 ≡ true
  unfolding stop_each
  stop_each-stops t [] p calls has = absurd (omega (arith, has))
  stop_each-stops t (id ∷ ids) p calls has = elim (Bool-cases (id == t)) [
    | inl it ↦ stop_each-keeps t ids _ _ (
        subst
          (λ (k : ℕ).
            is_stopped C k (bthread_stop C timer_unschedule has_group has_control id p).0 ≡ true)
          (==_eq id t it) (bthread_stop-stops id p))
    | inr other ↦ stop_each-stops t ids _ _ (ground (arith, has, other))
  ]

  -- `bthread_list_stop` of a list that was made answers 0 and stops every bthread in it: whatever else
  -- the list holds, each of its identifiers counts as stopped afterwards, and so does each that was
  -- stopped before. A list that was never made or was destroyed answers EINVAL and changes nothing.
  pub bthread_list_stop-stops :
      (T : TidList) (l : BthreadList T) (t : ℕ) (p : Pool)
      → let (p', calls, answer) = bthread_list_stop T l p in
        ((x : T.Impl) × (l.impl ≡ some x)
          × (answer ≡ list_ok)
          × ((count t (T.ids x) ≡ 0) ⊎ (is_stopped C t p' ≡ true))
          × ((is_stopped C t p ≡ false) ⊎ (is_stopped C t p' ≡ true)))
        ⊎ ((l.impl ≡ none) × (p' ≡ p) × (calls ≡ []) × (answer ≡ list_einval))
  unfolding bthread_list_stop
  bthread_list_stop-stops T l t p = elim (Option-cases l.impl) [
    | inl missing ↦
        inr (missing, ground (arith, missing), ground (arith, missing), ground (arith, missing))
    | inr (x, made) ↦ inl (
      x,
      made,
      ground (arith, made),
      elim (dec_lt 0 (count t (T.ids x))) [
        | yes has ↦ inr (ground (arith, made, stop_each-stops t (T.ids x) p [] has))
        | no absent ↦ inl (omega (arith, absent))
      ],
      elim (Bool-cases (is_stopped C t p)) [
        | inl before ↦ inr (ground (arith, made, stop_each-keeps t (T.ids x) p [] before))
        | inr running ↦ inl running
      ],
    )
  ]
