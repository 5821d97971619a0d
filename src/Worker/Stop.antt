-- ===== src/Worker/Stop.antt =====
-- dbrpc/task_control.cpp: `stop_and_join`, and what it makes of `wait_task`.

use brpc_source_code_analysi.Prelude.{
  ℕ, zero, suc, ◌≡◌, refl, ◌∙◌, ◌+◌, ◌≤◌, ◌<◌, ◌==◌, List, ◌∷◌, update, arith, inl, inr, Bool-cases,
}
use brpc_source_code_analysi.Control.Groups.{Groups, stop_groups}
use brpc_source_code_analysi.Control.Signal.{parking_lot_num}
use brpc_source_code_analysi.Worker.Lot.{ParkingLot}

-- What `stop_and_join` does to threads, newest first; and the deletion of the recorder, the hiding of
-- the variables and the release of `_groups` in the destructor.
pub data ThreadCall : Type 0 where
  stop_epoll_threads : ThreadCall
  interrupt_pthread pthread_join : (worker : ℕ) → ThreadCall
  deletes_recorder : (recorder : ℕ) → ThreadCall
  hides_variables frees_groups : ThreadCall

module _ (L : ParkingLot) where
  -- `_groups`, `_pl` and the calls.
  pub record Stopping : Type 0 where
    pub table : Groups
    pub lots : ℕ → L.State
    pub calls : List ThreadCall

  unfoldable pub stop_lots : (left i : ℕ) → (ℕ → L.State) → ℕ → L.State
  stop_lots zero i lots = lots
  stop_lots (suc left) i lots = stop_lots left (suc i) (update lots i (L.stop (lots i)))

  -- A loop over `_workers`, from worker `i` on.
  unfoldable pub for_workers : (ℕ → ThreadCall) → (left i : ℕ) → List ThreadCall → List ThreadCall
  for_workers what zero i calls = calls
  for_workers what (suc left) i calls = for_workers what left (suc i) (what i ∷ calls)

  unfoldable pub stop_and_join : (num_workers : ℕ) → Stopping → Stopping
  stop_and_join num_workers c = record {
    table = stop_groups c.table;
    lots = stop_lots parking_lot_num 0 c.lots;
    calls =
        for_workers pthread_join num_workers 0
          (for_workers interrupt_pthread num_workers 0 (stop_epoll_threads ∷ c.calls));
  }

  stop_lots-outside : (left i j : ℕ) (lots : ℕ → L.State) → j < i → stop_lots left i lots j ≡ lots j
  unfolding stop_lots
  stop_lots-outside zero i j lots lt = refl
  stop_lots-outside (suc left) i j lots lt =
      stop_lots-outside left (suc i) j (update lots i (L.stop (lots i))) (omega (arith, lt))
      ∙ ground (arith, lt)

  pub stop_lots-stopped :
      (left i j : ℕ) (lots : ℕ → L.State)
      → i ≤ j
      → j < i + left
      → stop_lots left i lots j ≡ L.stop (lots j)
  unfolding stop_lots
  stop_lots-stopped zero i j lots le lt = absurd (omega (arith, le, lt))
  stop_lots-stopped (suc left) i j lots le lt = elim (Bool-cases (i == j)) [
    | inl here ↦
        ground (arith, here, stop_lots-outside left (suc i) j (update lots i (L.stop (lots i))))
    | inr later ↦
        ground
          (arith, later, le, lt, stop_lots-stopped left (suc i) j (update lots i (L.stop (lots i))))
  ]
