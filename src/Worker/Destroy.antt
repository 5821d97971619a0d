-- ===== src/Worker/Destroy.antt =====
-- dbrpc/task_control.cpp: the destructor of `TaskControl`, also for a control whose `init` failed, which
-- `get_or_new_task_control` of dbrpc/bthread.cpp deletes.
use mathlib.Core.Path.{subst}
use brpc_source_code_analysi.Prelude.{
  ℕ, zero, suc, ◌≡◌, refl, sym, ap, ◌∙◌, ◌+◌, ◌≤◌, ◌<◌, ◌==◌, if◌then◌else◌, Bool, true, false,
  Option, none, some, List, [], ◌∷◌, arith, inl, inr, Bool-cases, dec_lt, ◌⊎◌,
}
use brpc_source_code_analysi.Control.Groups.{stop_groups, choose_one_group}
use brpc_source_code_analysi.Control.Workers.{Workers, failed, create_loop, init}
use brpc_source_code_analysi.Api.Concurrency.{new_control}
use brpc_source_code_analysi.Worker.Lot.{ParkingLot}
use brpc_source_code_analysi.Worker.Stop.{
  ThreadCall, stop_epoll_threads, interrupt_pthread, pthread_join, deletes_recorder,
  hides_variables, frees_groups, Stopping, for_workers, stop_and_join,
}

abbrev pub delete_recorder : Option ℕ → List ThreadCall → List ThreadCall
delete_recorder none calls = calls
delete_recorder (some r) calls = deletes_recorder r ∷ calls

abbrev pub is_join : (worker : ℕ) → ThreadCall → Bool
is_join i (pthread_join j) = j == i
is_join i (interrupt_pthread j) = false
is_join i (deletes_recorder r) = false
is_join i stop_epoll_threads = false
is_join i hides_variables = false
is_join i frees_groups = false

abbrev pub is_interrupt : (worker : ℕ) → ThreadCall → Bool
is_interrupt i (pthread_join j) = false
is_interrupt i (interrupt_pthread j) = j == i
is_interrupt i (deletes_recorder r) = false
is_interrupt i stop_epoll_threads = false
is_interrupt i hides_variables = false
is_interrupt i frees_groups = false

abbrev pub times : (ThreadCall → Bool) → List ThreadCall → ℕ
times is [] = 0
times is (c ∷ calls) = if is c then suc (times is calls) else times is calls

module _ (L : ParkingLot) where
  -- `_pending_time` is given apart. `_groups` is NULL at the end: no slot leads to a group.
  unfoldable pub destroy_control :
      (num_workers : ℕ) (pending_time : Option ℕ) → Stopping L → Stopping L
  destroy_control num_workers pending_time c =
      let stopped =
        stop_and_join L num_workers
          (record c { calls = hides_variables ∷ delete_recorder pending_time c.calls }) in
      record stopped {
        table = record (stopped.table) { groups = λ i. none };
        calls = frees_groups ∷ stopped.calls;
      }

  times-other :
      (is : ThreadCall → Bool) (what : ℕ → ThreadCall) (left i : ℕ) (calls : List ThreadCall)
      → ((j : ℕ) → is (what j) ≡ false)
      → times is (for_workers L what left i calls) ≡ times is calls
  unfolding for_workers
  times-other is what zero i calls h = refl
  times-other is what (suc left) i calls h =
      times-other is what left (suc i) (what i ∷ calls) h ∙ ground (arith, h i)

  times-passed :
      (is : ThreadCall → Bool) (what : ℕ → ThreadCall) (k left i : ℕ) (calls : List ThreadCall)
      → ((j : ℕ) → is (what j) ≡ (j == k))
      → k < i
      → times is (for_workers L what left i calls) ≡ times is calls
  unfolding for_workers
  times-passed is what k zero i calls h lt = refl
  times-passed is what k (suc left) i calls h lt =
      times-passed is what k left (suc i) (what i ∷ calls) h (omega (arith, lt))
      ∙ ground (arith, h i, lt)

  times-once :
      (is : ThreadCall → Bool) (what : ℕ → ThreadCall) (k left i : ℕ) (calls : List ThreadCall)
      → ((j : ℕ) → is (what j) ≡ (j == k))
      → i ≤ k
      → k < i + left
      → times is (for_workers L what left i calls) ≡ suc (times is calls)
  unfolding for_workers
  times-once is what k zero i calls h le lt = absurd (omega (arith, le, lt))
  times-once is what k (suc left) i calls h le lt = elim (Bool-cases (i == k)) [
    | inl here ↦
        times-passed is what k left (suc i) (what i ∷ calls) h (ground (arith, here))
        ∙ ground (arith, h i, here)
    | inr later ↦
        times-once is what k left (suc i) (what i ∷ calls) h (ground (arith, later, le))
          (omega (arith, lt))
        ∙ ground (arith, h i, later)
  ]

  -- Worker `i` is interrupted once and joined once, before the groups are freed.
  pub record IsJoined (i : ℕ) (c : Stopping L) : Type 0 where
    pub before : List ThreadCall
    pub freed_last : c.calls ≡ frees_groups ∷ before
    pub interrupted_once : times (is_interrupt i) before ≡ 1
    pub joined_once : times (is_join i) before ≡ 1
    pub no_group :
        (fast_rand_less_than : ℕ → ℕ) → choose_one_group fast_rand_less_than c.table ≡ none

  nothing_yet :
      (i : ℕ) (pending_time : Option ℕ)
      → (times (is_interrupt i) (hides_variables ∷ delete_recorder pending_time []) ≡ 0)
        × (times (is_join i) (hides_variables ∷ delete_recorder pending_time []) ≡ 0)
  nothing_yet i none = (refl, refl)
  nothing_yet i (some r) = (refl, refl)

  destroy_control-IsJoined :
      (num_workers i : ℕ) (pending_time : Option ℕ) (c : Stopping L)
      → c.calls ≡ []
      → i < num_workers
      → IsJoined i (destroy_control num_workers pending_time c)
  unfolding destroy_control stop_and_join stop_groups choose_one_group
  destroy_control-IsJoined num_workers i pending_time c none_before lt =
      let start = stop_epoll_threads ∷ hides_variables ∷ delete_recorder pending_time [] in
      let interrupted = for_workers L interrupt_pthread num_workers 0 start in
      record {
        before = for_workers L pthread_join num_workers 0 interrupted;
        freed_last = rw none_before refl;
        interrupted_once =
            times-other (is_interrupt i) pthread_join num_workers 0 interrupted (λ j. refl)
            ∙ times-once (is_interrupt i) interrupt_pthread i num_workers 0 start (λ j. refl)
                (omega arith) (omega (arith, lt))
            ∙ ap suc (nothing_yet i pending_time).0;
        joined_once =
            times-once (is_join i) pthread_join i num_workers 0 interrupted (λ j. refl)
              (omega arith) (omega (arith, lt))
            ∙ ap suc (
                times-other (is_join i) interrupt_pthread num_workers 0 start (λ j. refl)
                ∙ (nothing_yet i pending_time).1);
        no_group = λ r. refl;
      }

  -- `delete c` in `get_or_new_task_control`, with the workers that `init` left, for a control that the
  -- others have not seen yet.
  unfoldable pub delete_control : Option Workers → Stopping L → Stopping L
  delete_control none c = c
  delete_control (some w) c = destroy_control w.num_workers none c

  pub delete_control-IsJoined :
      (w : Workers) (i : ℕ) (c : Stopping L)
      → c.calls ≡ []
      → (w.num_workers ≤ i) ⊎ IsJoined i (delete_control (some w) c)
  unfolding delete_control
  delete_control-IsJoined w i c none_before = elim (dec_lt i w.num_workers) [
    | yes lt ↦ inr (destroy_control-IsJoined w.num_workers i none c none_before lt)
    | no out ↦ inl (omega (arith, out))
  ]

  create_loop-fails :
      (creates : ℕ → Bool) (k left i : ℕ)
      → creates k ≡ false
      → i ≤ k
      → k < i + left
      → create_loop creates left i ≡ false
  unfolding create_loop
  create_loop-fails creates k zero i fails le lt = absurd (omega (arith, le, lt))
  create_loop-fails creates k (suc left) i fails le lt = elim (Bool-cases (i == k)) [
    | inl here ↦ ground (arith, here, fails)
    | inr later ↦ ground (
      arith,
      create_loop-fails creates k left (suc i) fails (ground (arith, later, le))
          (omega (arith, lt)),
    )
  ]

  -- When `pthread_create` fails for the `k`th of `n` workers, `init` of a new control fails, and its
  -- destructor interrupts and joins all `n`: each of them once, also the `k`th and those after it,
  -- which were never created; then it frees the groups, and no group is left to choose.
  pub failed_init-IsJoined :
      (creates : ℕ → Bool) (k n i : ℕ) (pending_time : Option ℕ) (c : Stopping L)
      → creates k ≡ false
      → k < n
      → i < n
      → c.calls ≡ []
      → ((init creates true n new_control).1 ≡ failed)
        × IsJoined i
            (destroy_control (init creates true n new_control).0.num_workers pending_time c)
  unfolding init
  failed_init-IsJoined creates k n i pending_time c fails k_lt lt none_before =
      let loop = create_loop-fails creates k n 0 fails (omega arith) (omega (arith, k_lt)) in
      let all : (init creates true n new_control).0.num_workers ≡ n = ground (arith, k_lt) in
      (
        ground (arith, loop, k_lt),
        subst (λ (m : ℕ). IsJoined i (destroy_control m pending_time c)) (sym all)
            (destroy_control-IsJoined n i pending_time c none_before lt),
      )
