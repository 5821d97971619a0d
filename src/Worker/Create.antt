-- ===== src/Worker/Create.antt =====
-- dbrpc/task_control.cpp and dbrpc/task_group.cpp: `create_group`, `worker_thread`, `destroy_self`
-- and `delete_task_group`.
use brpc_source_code_analysi.Prelude.{
  ℕ, ◌+◌, ◌-◌, ◌==◌, if◌then◌else◌, Bool, true, false, Option, none, some, List, ◌++◌,
}
use brpc_source_code_analysi.Task.Meta.{TaskMeta, TidCodec}
use brpc_source_code_analysi.Control.Groups.{
  Groups, Effect, Rc, rc_ok, rc_fail, add_group, delete_group,
}
use brpc_source_code_analysi.Worker.Construct.{
  group_object, takes, gives, checks, Store, Answers, call, set_object, construct, init, destruct,
}

-- The table after a call, and what was asked of the rest of the program, newest first.
abbrev pub after_table : Groups × List Effect × Rc → Store → Store
after_table (t, effects, rc) st = record st { table = t; asked = effects ++ st.asked }

-- How `destroy_self` goes: `_control` is NULL, or it leads to no control.
pub data Destroyed : Type 0 where
  destroyed check_failed wild_pointer : Destroyed

unfoldable pub destroy_self : (this_control g : ℕ) → Store → Store × Destroyed
destroy_self this_control g st = elim (st.objects g).control [
  | none ↦ (call (checks false) st, check_failed)
  | some c ↦
      if c == this_control
      then (
        let st' = after_table (delete_group (some g) true st.table) st in
            set_object g (record (st'.objects g) { control = none }) st',
        destroyed,
      )
      else (st, wild_pointer)
]

unfoldable pub new_group_at :
    (offset_table : ℕ → ℕ) (table_size : ℕ) → Answers → (g : ℕ) → Store → Store
new_group_at offset_table table_size a g st =
    call (takes (group_object g))
      (set_object g (construct offset_table table_size a (st.objects g)) st)

unfoldable pub delete_task_group : TidCodec → (g : ℕ) → Store → Store
delete_task_group C g st = call (gives (group_object g)) (destruct C g st)

module _ (C : TidCodec) (max_concurrency : ℕ) where
  abbrev pub keep_or_delete : (g : ℕ) → Rc → Store → Store × Option ℕ
  keep_or_delete g rc_ok st = (st, some g)
  keep_or_delete g rc_fail st = (delete_task_group C g st, none)

  abbrev pub add_or_delete : (g : ℕ) → Store × Bool → Store × Option ℕ
  add_or_delete g (st, false) = (delete_task_group C g st, none)
  add_or_delete g (st, true) =
      let added = add_group max_concurrency (some g) st.table in
      keep_or_delete g added.2 (after_table added st)

-- The thread of a worker, with `tls_task_group` and the counter of workers.
pub record WorkerThread : Type 0 where
  pub store : Store
  pub tls_task_group : Option ℕ
  pub nworkers : ℕ

abbrev pub retire : (this_control g : ℕ) → WorkerThread → WorkerThread
retire this_control g w = record w {
  store = (destroy_self this_control g w.store).0;
  tls_task_group = none;
  nworkers = w.nworkers - 1;
}

-- `run` is what the whole program does while the worker is in `run_main_task`.
abbrev pub employ :
    (run : WorkerThread → WorkerThread) (this_control : ℕ) → Option ℕ → WorkerThread → WorkerThread
employ run this_control none w = w
employ run this_control (some g) w =
    retire this_control g (run (record w { tls_task_group = some g; nworkers = w.nworkers + 1 }))

module _ (C : TidCodec) (offset_table : ℕ → ℕ) (table_size unknown_type max_concurrency : ℕ)
    (fresh : TaskMeta) where
  unfoldable pub create_group : Answers → Store → Store × Option ℕ
  create_group a st = elim a.new_group [
    | none ↦ (st, none)
    | some g ↦
        add_or_delete C max_concurrency g
          (init C unknown_type fresh a g (new_group_at offset_table table_size a g st))
  ]

  unfoldable pub worker_thread :
      (run : WorkerThread → WorkerThread) (this_control : ℕ) → Answers → WorkerThread → WorkerThread
  worker_thread run this_control a w =
      let (st, made) = create_group a w.store in
      employ run this_control made (record w { store = st })
