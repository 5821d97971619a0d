-- ===== src/Api/Control.antt =====
-- dbrpc/bthread.cpp: making the control of the process.

use mathlib.Core.Path.{subst}
use brpc_source_code_analysi.Prelude.{
  ℕ, ◌≡◌, ◌⊎◌, ◌≤◌, ◌<◌, refl, sym, ◌==◌, ◌&&◌, ltb, not, if◌then◌else◌, Bool, true, false, none,
  some, arith, inl, inr, Bool-cases, Option-cases, Option, [],
}
use brpc_source_code_analysi.Control.Workers.{Workers, create_loop, init}
use brpc_source_code_analysi.Worker.Lot.{ParkingLot}
use brpc_source_code_analysi.Worker.Stop.{Stopping}
use brpc_source_code_analysi.Worker.Destroy.{IsJoined, delete_control, delete_control-IsJoined}
use brpc_source_code_analysi.Api.Concurrency.{Process, make_task_control, get_or_new_task_control}

-- The number of workers that the flags ask for.
abbrev pub asked : Process → ℕ
asked s =
    if ltb 0 s.bthread_min_concurrency then s.bthread_min_concurrency else s.bthread_concurrency

abbrev works : (creates : ℕ → Bool) → (timer_ready allocated : Bool) → ℕ → Bool
works creates timer_ready allocated n =
    allocated && (timer_ready && (not (n == 0) && create_loop creates n 0))

abbrev made : ℕ → Workers
made n = record { concurrency = n; num_workers = n }

-- What `get_or_new_task_control` gives: the control that there was; one that another thread made before
-- the mutex was taken; a new one, with the number of workers that the flags ask for; none, because
-- memory is short; or none, and the new control `w` was deleted, which joined each of the workers that
-- its `init` asked for. `i` is any worker.
pub data Obtained (L : ParkingLot) (fresh : Stopping L) (i : ℕ) (allocated timer_ready : Bool)
    (s u : Process) : Process × Option Workers × Option Workers → Type 0 where
  was_there :
      (c : Workers)
      → s.task_control ≡ some c
      → Obtained L fresh i allocated timer_ready s u (s, some c, none)
  came :
      (c : Workers)
      → s.task_control ≡ none
      → u.task_control ≡ some c
      → Obtained L fresh i allocated timer_ready s u (u, some c, none)
  is_new :
      (c : Workers)
      → s.task_control ≡ none
      → u.task_control ≡ none
      → 0 < c.concurrency
      → c.concurrency ≡ asked u
      → c.num_workers ≡ asked u
      → Obtained L fresh i allocated timer_ready s u
          (record u { task_control = some c }, some c, none)
  no_memory :
      s.task_control ≡ none
      → u.task_control ≡ none
      → allocated ≡ false
      → Obtained L fresh i allocated timer_ready s u (u, none, none)
  discarded :
      (w : Workers)
      → s.task_control ≡ none
      → u.task_control ≡ none
      → allocated ≡ true
      → w.num_workers ≡ (if timer_ready then asked u else 0)
      → ((w.num_workers ≤ i) ⊎ IsJoined L i (delete_control L (some w) fresh))
      → Obtained L fresh i allocated timer_ready s u (u, none, some w)

make-made :
    (creates : ℕ → Bool) (timer_ready allocated : Bool) (u : Process)
    → u.task_control ≡ none
    → works creates timer_ready allocated (asked u) ≡ true
    → make_task_control creates timer_ready allocated u
      ≡ (record u { task_control = some (made (asked u)) }, some (made (asked u)), none)
unfolding make_task_control init
make-made creates timer_ready allocated u absent fine = ground (arith, absent, fine)

make-no_memory :
    (creates : ℕ → Bool) (timer_ready : Bool) (u : Process)
    → u.task_control ≡ none
    → make_task_control creates timer_ready false u ≡ (u, none, none)
unfolding make_task_control
make-no_memory creates timer_ready u absent = ground (arith, absent)

-- The control that a failed `init` leaves.
abbrev left_over : (timer_ready : Bool) → ℕ → Workers
left_over timer_ready n = record { concurrency = n; num_workers = if timer_ready then n else 0 }

make-failed :
    (creates : ℕ → Bool) (timer_ready : Bool) (u : Process)
    → u.task_control ≡ none
    → works creates timer_ready true (asked u) ≡ false
    → make_task_control creates timer_ready true u
      ≡ (u, none, some (left_over timer_ready (asked u)))
unfolding make_task_control init
make-failed creates timer_ready u absent broken = ground (arith, absent, broken)

failed-Obtained :
    (L : ParkingLot) (fresh : Stopping L) (i : ℕ) (creates : ℕ → Bool)
    (timer_ready allocated : Bool) (s u : Process)
    → fresh.calls ≡ []
    → s.task_control ≡ none
    → u.task_control ≡ none
    → works creates timer_ready allocated (asked u) ≡ false
    → Obtained L fresh i allocated timer_ready s u
        (make_task_control creates timer_ready allocated u)
failed-Obtained L fresh i creates timer_ready false s u none_before absent none_yet broken =
    subst (Obtained L fresh i false timer_ready s u)
      (sym (make-no_memory creates timer_ready u none_yet)) (no_memory absent none_yet refl)
failed-Obtained L fresh i creates timer_ready true s u none_before absent none_yet broken =
    let w = left_over timer_ready (asked u) in
    subst (Obtained L fresh i true timer_ready s u)
      (sym (make-failed creates timer_ready u none_yet broken))
      (discarded w absent none_yet refl refl (delete_control-IsJoined L w i fresh none_before))

locked-Obtained :
    (L : ParkingLot) (fresh : Stopping L) (i : ℕ) (creates : ℕ → Bool)
    (timer_ready allocated : Bool) (s u : Process)
    → fresh.calls ≡ []
    → s.task_control ≡ none
    → Obtained L fresh i allocated timer_ready s u
        (make_task_control creates timer_ready allocated u)
unfolding make_task_control
locked-Obtained L fresh i creates timer_ready allocated s u none_before absent =
    elim (Option-cases u.task_control) [
      | inr (c, has) ↦
          subst (Obtained L fresh i allocated timer_ready s u) {x = (u, some c, none)}
            (ground (arith, has)) (came c absent has)
      | inl none_yet ↦ elim (Bool-cases (works creates timer_ready allocated (asked u))) [
        | inl fine ↦
            subst (Obtained L fresh i allocated timer_ready s u)
              (sym (make-made creates timer_ready allocated u none_yet fine))
              (is_new (made (asked u)) absent none_yet (ground (arith, fine)) refl refl)
        | inr broken ↦
            failed-Obtained L fresh i creates timer_ready allocated s u none_before absent none_yet
              broken
      ]
    ]

get_or_new-present :
    (creates : ℕ → Bool) (timer_ready allocated : Bool) (meanwhile : Process → Process)
    (s : Process) (c : Workers)
    → s.task_control ≡ some c
    → get_or_new_task_control creates timer_ready allocated meanwhile s ≡ (s, some c, none)
unfolding get_or_new_task_control
get_or_new-present creates timer_ready allocated meanwhile s c present = ground (arith, present)

get_or_new-absent :
    (creates : ℕ → Bool) (timer_ready allocated : Bool) (meanwhile : Process → Process)
    (s : Process)
    → s.task_control ≡ none
    → get_or_new_task_control creates timer_ready allocated meanwhile s
      ≡ make_task_control creates timer_ready allocated (meanwhile s)
unfolding get_or_new_task_control
get_or_new-absent creates timer_ready allocated meanwhile s absent = ground (arith, absent)

-- What is given stays the control of the process.
given-stays :
    (L : ParkingLot) (fresh : Stopping L) (i : ℕ) (allocated timer_ready : Bool) (s u : Process)
    (r : Process × Option Workers × Option Workers)
    → Obtained L fresh i allocated timer_ready s u r
    → (r.1 ≡ none) ⊎ ((c : Workers) × (r.1 ≡ some c) × (r.0.task_control ≡ some c))
given-stays L fresh i allocated timer_ready s u r (was_there c has) = inr (c, refl, has)
given-stays L fresh i allocated timer_ready s u r (came c absent has) = inr (c, refl, has)
given-stays L fresh i allocated timer_ready s u r (is_new c absent none_yet some_worker n sized) =
    inr (c, refl, refl)
given-stays L fresh i allocated timer_ready s u r (no_memory absent none_yet short) = inl refl
given-stays L fresh i allocated timer_ready s u r (discarded w absent none_yet got n joined) =
    inl refl

-- `get_or_new_task_control` gives the control of the process, one that another thread has made before
-- the mutex was taken, or a new one, which has the number of workers that the flags ask for, not 0.
-- What it gives is what the process has from then on: a later call gives the same and changes nothing,
-- whatever its thread could create. If it gives none, the process is as the other threads left it; and
-- when memory was there, the new control is deleted, which interrupts and joins every worker that was
-- asked for, created or not.
pub get_or_new_task_control-once :
    (L : ParkingLot) (fresh : Stopping L) (i : ℕ) (creates creates' : ℕ → Bool)
    (timer_ready allocated timer_ready' allocated' : Bool)
    (meanwhile meanwhile' : Process → Process) (s : Process)
    → fresh.calls ≡ []
    → let r = get_or_new_task_control creates timer_ready allocated meanwhile s in
      Obtained L fresh i allocated timer_ready s (meanwhile s) r
      × ((r.1 ≡ none)
          ⊎ ((c : Workers) × (r.1 ≡ some c)
              × (get_or_new_task_control creates' timer_ready' allocated' meanwhile' r.0
                  ≡ (r.0, some c, none))))
get_or_new_task_control-once L fresh i creates creates' timer_ready allocated timer_ready'
      allocated' meanwhile meanwhile' s none_before =
    let r = get_or_new_task_control creates timer_ready allocated meanwhile s in
    let obtained : Obtained L fresh i allocated timer_ready s (meanwhile s) r =
      elim (Option-cases s.task_control) [
        | inr (c, has) ↦
            subst (Obtained L fresh i allocated timer_ready s (meanwhile s))
              (sym (get_or_new-present creates timer_ready allocated meanwhile s c has))
              (was_there c has)
        | inl absent ↦
            subst (Obtained L fresh i allocated timer_ready s (meanwhile s))
              (sym (get_or_new-absent creates timer_ready allocated meanwhile s absent))
              (locked-Obtained L fresh i creates timer_ready allocated s (meanwhile s) none_before
                absent)
      ] in
    (
      obtained,
      elim (given-stays L fresh i allocated timer_ready s (meanwhile s) r obtained) [
        | inl nothing ↦ inl nothing
        | inr (c, given, has) ↦
            inr (c, given, get_or_new-present creates' timer_ready' allocated' meanwhile' r.0 c has)
      ],
    )
