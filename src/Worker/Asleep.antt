-- ===== src/Worker/Asleep.antt =====
-- dbrpc/task_group.cpp: a worker that falls asleep in `wait_task`.
use mathlib.Core.Path.{subst}
use brpc_source_code_analysi.Prelude.{
  ℕ, zero, suc, ◌≡◌, refl, sym, ap, ◌∙◌, ◌+◌, ◌*◌, ◌%◌, ◌^◌, ◌≤◌, ◌<◌, ◌⊎◌, true, Option, none,
  arith, inl, inr, Bool-cases, Option-cases, dec_lt,
}
use brpc_source_code_analysi.Queues.{WorkStealingQueue, RemoteTaskQueue}
use brpc_source_code_analysi.Control.Idle.{AreIdle, steal_task-AreIdle}
use brpc_source_code_analysi.Worker.Lot.{ParkingLot}
use brpc_source_code_analysi.Worker.Wait.{
  Shared, asleep, save_state, from_others, group_steal_task, wait_task,
}

module _ (W : WorkStealingQueue) (R : RemoteTaskQueue) (L : ParkingLot) where
  abbrev World : Type 0
  World = Shared W R L

  module _ (until_wait_ends meanwhile : ℕ → World → World) (waking saving : ℕ → ℕ)
      (g offset max_concurrency : ℕ) (inv : ℕ → ℕ) where
    -- In round `r` the other threads announce `saving r` and `waking r` tasks at this lot, before the
    -- steal and before the wait ends. They keep the table within its bound and leave the worker's
    -- own variables alone. The offset has an inverse modulo each size of the table.
    pub record IsSignalledBy : Type 0 where
      pub wakes : (r : ℕ) (s : World) → (until_wait_ends r s).lot ≡ L.signal (waking r) s.lot
      pub wait_keeps : (r : ℕ) (s : World) → (until_wait_ends r s).last_pl_state ≡ s.last_pl_state
      pub wait_bound :
          (r : ℕ) (s : World)
          → s.table.ngroup ≤ max_concurrency
          → (until_wait_ends r s).table.ngroup ≤ max_concurrency
      pub saves : (r : ℕ) (s : World) → (meanwhile r s).lot ≡ L.signal (saving r) s.lot
      pub steal_keeps : (r : ℕ) (s : World) → (meanwhile r s).last_pl_state ≡ s.last_pl_state
      pub steal_bound :
          (r : ℕ) (s : World)
          → s.table.ngroup ≤ max_concurrency
          → (meanwhile r s).table.ngroup ≤ max_concurrency
      pub few : (r : ℕ) → waking (suc r) + saving r < 2 ^ 31
      pub inverse : (n : ℕ) → 0 < n → n ≤ max_concurrency → (offset * inv n) % n ≡ 1 % n

    -- Every group was idle, if the seed did not wrap around in the steal.
    abbrev pub FoundIdle : World → Type 0
    FoundIdle s =
        (2 ^ 64 ≤ s.steal_seed + s.table.ngroup * offset)
        ⊎ AreIdle W R s.table.ngroup s.table s.queues

    -- The steal of a round that begins in `s`, and the state in which it looks at the other groups.
    abbrev pub steal_in : (round : ℕ) → World → World × Option ℕ
    steal_in round s = group_steal_task W R L (meanwhile round) g offset (until_wait_ends round s)

    abbrev pub at_steal : (round : ℕ) → World → World
    at_steal round s = meanwhile round (save_state W R L (until_wait_ends round s))

    -- What comes before a sleep in `s'` that is not in the wait of `round`, which begins in a state: the
    -- steal of this round, after the own remote queue was empty, found every group idle, and nothing
    -- was announced from the moment at which the state of the lot was saved for it to the sleep in the
    -- next wait; or this steal found nothing and the sleep comes after that of a later round.
    pub data SleptAfter (s' : World) : (round : ℕ) → World → Type 0 where
      after_steal :
          (round : ℕ) (s : World)
          → R.pop ((until_wait_ends round s).queues.remote_rq g) ≡ none
          → FoundIdle (at_steal round s)
          → s' ≡ until_wait_ends (suc round) (steal_in round s).0
          → s'.last_pl_state ≡ (until_wait_ends round s).lot
          → saving round ≡ 0
          → waking (suc round) ≡ 0
          → SleptAfter s' round s
      later :
          (round : ℕ) (s : World)
          → (steal_in round s).1 ≡ none
          → SleptAfter s' (suc round) (steal_in round s).0
          → SleptAfter s' round s

    -- Or the worker sleeps in the first wait, with the state of the lot that it had saved before.
    pub data Slept (s' : World) (round : ℕ) (s : World) : Type 0 where
      at_first_wait :
          s' ≡ until_wait_ends round s → L.equal s'.lot s.last_pl_state ≡ true → Slept s' round s
      after_rounds : SleptAfter s' round s → Slept s' round s

    -- A steal that found nothing, and the state that it leaves.
    record Nothing (round : ℕ) (s : World) : Type 0 where
      own_empty : R.pop ((until_wait_ends round s).queues.remote_rq g) ≡ none
      all_idle : FoundIdle (at_steal round s)
      saved : (steal_in round s).0.last_pl_state ≡ (until_wait_ends round s).lot
      announced : (steal_in round s).0.lot ≡ L.signal (saving round) (until_wait_ends round s).lot
      in_bound : (steal_in round s).0.table.ngroup ≤ max_concurrency

    module _ (signalled : IsSignalledBy) where
      from_others-FoundIdle :
          (s : World)
          → s.table.ngroup ≤ max_concurrency
          → (from_others W R L offset s).1 ≡ none
          → FoundIdle s
      from_others-FoundIdle s bound e =
          elim (dec_lt (s.steal_seed + s.table.ngroup * offset) (2 ^ 64)) [
            | yes small ↦ inr (elim (dec_lt 0 s.table.ngroup) [
              | yes some_group ↦
                  steal_task-AreIdle W R s.steal_seed offset (inv s.table.ngroup) s.table.ngroup
                    s.table s.queues (signalled.inverse _ some_group bound) small e (omega arith)
              | no empty ↦
                  subst (λ (n : ℕ). AreIdle W R n s.table s.queues) {x = 0} (omega (arith, empty))
                    tt
            ])
            | no wraps ↦ inl (omega (arith, wraps))
          ]

      steal-Nothing :
          (s : World) (round : ℕ)
          → s.table.ngroup ≤ max_concurrency
          → (steal_in round s).1 ≡ none
          → Nothing round s
      unfolding group_steal_task
      steal-Nothing s round bound e =
          let u = until_wait_ends round s in
          elim (Option-cases (R.pop (u.queues.remote_rq g))) [
            | inr ((tid, q), found) ↦ absurd (ground (arith, e, found))
            | inl empty ↦
                let x = at_steal round s in
                let whole : steal_in round s ≡ from_others W R L offset x = ground (arith, empty) in
                let bound' =
                  signalled.steal_bound round (save_state W R L u)
                    (signalled.wait_bound round s bound) in
                record {
                  own_empty = empty;
                  all_idle =
                      from_others-FoundIdle x bound'
                        (sym (ap (λ (r : World × Option ℕ). r.1) whole) ∙ e);
                  saved =
                      ap (λ (r : World × Option ℕ). r.0.last_pl_state) whole
                      ∙ signalled.steal_keeps round (save_state W R L u);
                  announced =
                      ap (λ (r : World × Option ℕ). r.0.lot) whole
                      ∙ signalled.saves round (save_state W R L u);
                  in_bound =
                      subst (λ (r : World × Option ℕ). r.0.table.ngroup ≤ max_concurrency)
                        (sym whole) bound';
                }
          ]

      no_signals :
          (s u : World) (r : ℕ)
          → u.lot ≡ L.signal (waking (suc r)) s.lot
          → u.last_pl_state ≡ s.last_pl_state
          → s.lot ≡ L.signal (saving r) s.last_pl_state
          → L.equal u.lot u.last_pl_state ≡ true
          → waking (suc r) + saving r ≡ 0
      no_signals s u r woken kept was same_state = elim (dec_lt 0 (waking (suc r) + saving r)) [
        | no none_at_all ↦ omega (arith, none_at_all)
        | yes some_signal ↦
            let now : u.lot ≡ L.signal (waking (suc r) + saving r) s.last_pl_state =
              woken ∙ ap (L.signal (waking (suc r))) was ∙ L.signal-signal _ _ _ in
            absurd (
              ground (
                arith,
                now,
                kept,
                same_state,
                L.signal_differs (waking (suc r) + saving r) s.last_pl_state some_signal
                    (signalled.few r),
              ))
      ]

      slept_next :
          (round : ℕ) (s s' t : World)
          → (steal_in round s).1 ≡ none
          → Nothing round s
          → t ≡ (steal_in round s).0
          → s' ≡ until_wait_ends (suc round) t
          → L.equal s'.lot t.last_pl_state ≡ true
          → SleptAfter s' round s
      slept_next round s s' t nothing n at here same_state =
          let s1 = (steal_in round s).0 in
          let here' : s' ≡ until_wait_ends (suc round) s1 =
            here ∙ ap (until_wait_ends (suc round)) at in
          let kept : s'.last_pl_state ≡ s1.last_pl_state =
            ap (λ (x : World). x.last_pl_state) here' ∙ signalled.wait_keeps (suc round) s1 in
          let silent =
            no_signals s1 s' round
              (ap (λ (x : World). x.lot) here' ∙ signalled.wakes (suc round) s1) kept
              (n.announced ∙ ap (L.signal (saving round)) (sym n.saved))
              (subst (λ (x : L.State). L.equal s'.lot x ≡ true)
                (ap (λ (x : World). x.last_pl_state) at ∙ sym kept) same_state) in
          after_steal round s n.own_empty n.all_idle here' (kept ∙ n.saved) (omega (arith, silent))
            (omega (arith, silent))

      -- A sleep in a later round, seen from this one.
      extend :
          (round : ℕ) (s s' : World)
          → (steal_in round s).1 ≡ none
          → Nothing round s
          → Slept s' (suc round) (steal_in round s).0
          → SleptAfter s' round s
      extend round s s' nothing n (at_first_wait here same_state) =
          slept_next round s s' (steal_in round s).0 nothing n refl here same_state
      extend round s s' nothing n (after_rounds more) = later round s nothing more

      sleeps :
          (fuel round : ℕ) (s s' : World)
          → s.table.ngroup ≤ max_concurrency
          → wait_task W R L until_wait_ends meanwhile g offset fuel round s ≡ (s', asleep)
          → Slept s' round s
      unfolding wait_task
      sleeps zero round s s' bound e = absurd (ground arith)
      sleeps (suc fuel) round s s' bound e =
          let u = until_wait_ends round s in
          elim (Bool-cases (L.stopped s.last_pl_state)) [
            | inl marked ↦ absurd (ground (arith, marked))
            | inr going ↦ elim (Bool-cases (L.equal u.lot u.last_pl_state)) [
              | inl same_state ↦
                  let here : u ≡ s' = ground (arith, going, same_state) in
                  at_first_wait (sym here) (
                    subst (λ (x : World). L.equal x.lot s.last_pl_state ≡ true) here
                      (subst (λ (x : L.State). L.equal u.lot x ≡ true)
                        (signalled.wait_keeps round s) same_state))
              | inr differs ↦ elim (Option-cases (steal_in round s).1) [
                | inr (tid, got) ↦ absurd (ground (arith, going, differs, got))
                | inl nothing ↦
                    let n = steal-Nothing s round bound nothing in
                    after_rounds (
                      extend round s s' nothing n (
                        sleeps fuel (suc round) (steal_in round s).0 s' n.in_bound
                          (ground (arith, going, differs, nothing))))
              ]
            ]
          ]

    -- A worker that falls asleep in `wait_task` has missed nothing. Either it sleeps at its first wait,
    -- with the state of the lot that it had saved before; or, in the last round before the sleep, its own
    -- remote queue was empty when the wait ended, and when it came to the other groups, in the state
    -- that the other threads had left by then, both queues of every group in the table were empty,
    -- unless the seed wrapped around; and from the moment between the two at which it saved the state
    -- of the lot to the sleep nobody has announced a task at the lot. The other threads keep the table
    -- within its bound, leave the worker's own variables alone and announce fewer than 2^31 tasks at
    -- the lot in a round; the offset has an inverse modulo each size of the table.
    pub wait_task-Slept :
        (fuel round : ℕ) (start s' : World)
        → IsSignalledBy
        → start.table.ngroup ≤ max_concurrency
        → wait_task W R L until_wait_ends meanwhile g offset fuel round start ≡ (s', asleep)
        → Slept s' round start
    wait_task-Slept fuel round start s' signalled bound e =
        sleeps signalled fuel round start s' bound e
