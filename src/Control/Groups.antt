-- ===== src/Control/Groups.antt =====
-- dbrpc/task_control.cpp: `_add_group`, `_delete_group`, `choose_one_group` and the sums over the
-- groups.
--
-- `groups` is the array of BTHREAD_MAX_CONCURRENCY pointers, zeroed by calloc; the first `ngroup`
-- slots are in use. BTHREAD_MAX_CONCURRENCY is defined outside the repository and is a parameter.
use brpc_source_code_analysi.Prelude.{
  ℕ, zero, suc, ◌+◌, ◌-◌, ◌==◌, if◌then◌else◌, ltb, Bool, true, false, Option, none, some, List, [],
  ◌∷◌, same, update,
}

pub record Groups : Type 0 where
  pub ngroup : ℕ
  pub groups : ℕ → Option ℕ
  pub stop : Bool

-- Calls out of the table: `signal_task(65536)` and the timer that deletes a group later.
pub data Effect : Type 0 where
  signal_task : (num_task : ℕ) → Effect
  schedule_delete : (group : ℕ) → Effect

-- The answer of the functions that return 0 or -1.
pub data Rc : Type 0 where
  rc_ok rc_fail : Rc

abbrev pub store_group : ℕ → Option ℕ → Groups → Groups
store_group i g t = record t { groups = update t.groups i g }

unfoldable pub add_group : ℕ → Option ℕ → Groups → Groups × List Effect × Rc
add_group max_concurrency none t = (t, [], rc_fail)
add_group max_concurrency (some g) t = if t.stop then (t, [], rc_fail) else (
  (if ltb t.ngroup max_concurrency
      then record (store_group t.ngroup (some g) t) { ngroup = t.ngroup + 1 }
      else t),
  signal_task 65536 ∷ [],
  rc_ok,
)

-- The loop of `_delete_group`: `left` rounds remain, from slot `i` on.
unfoldable pub erase_group : ℕ → ℕ → ℕ → Groups → Groups × Bool
erase_group zero i g t = (t, false)
erase_group (suc left) i g t =
    let next = erase_group left (suc i) g t in
    if same (t.groups i) (some g)
    then (record (store_group i (t.groups (t.ngroup - 1)) t) { ngroup = t.ngroup - 1 }, true)
    else next

abbrev pub deleted : ℕ → Groups × Bool → Groups × List Effect × Rc
deleted g (t, erased) = (t, if erased then schedule_delete g ∷ [] else [], rc_ok)

-- `belongs` says whether `g->_control` is this control.
unfoldable pub delete_group : Option ℕ → (belongs : Bool) → Groups → Groups × List Effect × Rc
delete_group none belongs t = (t, [], rc_fail)
delete_group (some g) belongs t =
    if belongs then deleted g (erase_group t.ngroup 0 g t) else (t, [], rc_fail)

-- `fast_rand_less_than` is a parameter.
unfoldable pub choose_one_group : (fast_rand_less_than : ℕ → ℕ) → Groups → Option ℕ
choose_one_group fast_rand_less_than t =
    if t.ngroup == 0 then none else t.groups (fast_rand_less_than t.ngroup)

-- `stop_and_join`, as far as it touches the table.
unfoldable pub stop_groups : Groups → Groups
stop_groups t = record t { stop = true; ngroup = 0 }

-- The loop that the three cumulated counters share: the sum of a field over the groups in use.
unfoldable pub sum_groups : (field : ℕ → ℕ) → ℕ → ℕ → Groups → ℕ
sum_groups field zero i t = 0
sum_groups field (suc left) i t =
    let rest = sum_groups field left (suc i) t in
    elim (t.groups i) [ none ↦ rest | some g ↦ field g + rest ]

-- The groups in use, in the order of the slots.
abbrev pub slots : ℕ → ℕ → Groups → List (Option ℕ)
slots zero i t = []
slots (suc left) i t = t.groups i ∷ slots left (suc i) t
