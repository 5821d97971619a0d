-- ===== src/Worker/Created.antt =====
-- dbrpc/task_control.cpp: what `create_group` leaves, by its answer.
use mathlib.Core.Path.{subst}
use brpc_source_code_analysi.Prelude.{
  ℕ, ap, ◌∙◌, sym, ◌≡◌, Bool, true, false, Option, none, some, List, ◌∷◌, ◌++◌, arith, inl, inr,
  Option-cases, ==_refl,
}
use brpc_source_code_analysi.Task.Meta.{TaskMeta, TidCodec}
use brpc_source_code_analysi.Task.Life.{slot_meta}
use brpc_source_code_analysi.Control.Groups.{Groups, Effect, Rc, rc_ok, rc_fail, add_group}
use brpc_source_code_analysi.Worker.Construct.{
  group_object, stack, slot, takes, Store, Answers, call, construct, init,
}
use brpc_source_code_analysi.Worker.Ledger.{
  Holds, group_resources, lost, IsVersioned, IsInitialised, Initialised, init-Initialised,
  delete-uninitialised, delete-IsInitialised, set_main-IsInitialised,
}
use brpc_source_code_analysi.Worker.Create.{
  keep_or_delete, add_or_delete, new_group_at, create_group, after_table,
}

module _ (C : TidCodec) (offset_table : ℕ → ℕ) (table_size unknown_type max_concurrency : ℕ)
    (fresh : TaskMeta) where
  table-IsInitialised :
      (g stk n : ℕ) (t : Groups) (asked : List Effect) (st : Store)
      → IsInitialised C g stk n st
      → IsInitialised C g stk n (record st { table = t; asked = asked })
  table-IsInitialised g stk n t asked st i = record {
    has_tid = i.has_tid;
    has_slot = i.has_slot;
    has_stack = i.has_stack;
    is_main = i.is_main;
  }

  -- What a worker holds after `create_group`, by its answer. The constructor leaves `_control` as
  -- the memory had it.
  abbrev pub Created : Answers → (before : Store) → Store × Option ℕ → Type 0
  Created a before (st, none) = Holds before.calls st.calls (lost a)
  Created a before (st, some g) =
      (stk : ℕ) × (n : ℕ) × (a.new_group ≡ some g)
      × (a.get_stack ≡ some stk)
      × (a.get_resource ≡ some n)
      × Holds before.calls st.calls (group_resources g stk n)
      × IsInitialised C g stk n st
      × ((st.objects g).control ≡ (before.objects g).control)

  module _ (a : Answers) (before : Store) (g : ℕ) (new : a.new_group ≡ some g) where
    abbrev constructed : Store
    constructed = new_group_at offset_table table_size a g before

    add-failed :
        (st : Store)
        → Initialised C unknown_type fresh a g constructed (st, false)
        → Created a before (add_or_delete C max_concurrency g (st, false))
    unfolding new_group_at construct
    add-failed st (same_tid, held) = λ r.
        ground
          (arith, held r, new, delete-uninitialised C g st (same_tid ∙ ground (arith, ==_refl g)))

    keep-Created :
        (stk n : ℕ) (rc : Rc) (st : Store)
        → a.get_stack ≡ some stk
        → a.get_resource ≡ some n
        → st.calls ≡ takes (slot n) ∷ takes (stack stk) ∷ takes (group_object g) ∷ before.calls
        → IsInitialised C g stk n st
        → (st.objects g).control ≡ (before.objects g).control
        → Created a before (keep_or_delete C max_concurrency g rc st)
    keep-Created stk n rc_ok st got found calls i c =
        (stk, n, new, got, found, λ r. ground (arith, calls), i, c)
    keep-Created stk n rc_fail st got found calls i c =
        λ r. ground (arith, calls, new, got, found, delete-IsInitialised C g stk n st i)

    add-succeeded :
        (st : Store)
        → Initialised C unknown_type fresh a g constructed (st, true)
        → ((n : ℕ) → a.get_resource ≡ some n → IsVersioned (slot_meta fresh (before.pool n)) n)
        → Created a before (add_or_delete C max_concurrency g (st, true))
    unfolding new_group_at construct
    add-succeeded st (stk, n, got, found, e) versioned =
        let started = call (takes (slot n)) (call (takes (stack stk)) constructed) in
        let i = set_main-IsInitialised C unknown_type fresh a g stk n started (versioned n found) in
        let (t, effects, rc) = add_group max_concurrency (some g) st.table in
        keep-Created stk n rc (after_table (t, effects, rc) st) got found
          (ap (λ (x : Store). x.calls) e)
          (table-IsInitialised g stk n t (effects ++ st.asked) st
            (subst (IsInitialised C g stk n) (sym e) i))
          (ap (λ (x : Store). (x.objects g).control) e ∙ ground (arith, ==_refl g))

    add-Created :
        (r : Store × Bool)
        → Initialised C unknown_type fresh a g constructed r
        → ((n : ℕ) → a.get_resource ≡ some n → IsVersioned (slot_meta fresh (before.pool n)) n)
        → Created a before (add_or_delete C max_concurrency g r)
    add-Created (st, false) i versioned = add-failed st i
    add-Created (st, true) i versioned = add-succeeded st i versioned

  -- `create_group` either makes a group that is initialised, and holds its object, one stack and one
  -- slot; or makes none and has given back all that it took, but for the main stack when the slot of
  -- the main task could not be got. `_control` is what the memory of the object held before. The
  -- version of the slot fits into 32 bits and is not 0.
  pub create_group-Created :
      (a : Answers) (st : Store)
      → ((n : ℕ) → a.get_resource ≡ some n → IsVersioned (slot_meta fresh (st.pool n)) n)
      → Created a st
          (create_group C offset_table table_size unknown_type max_concurrency fresh a st)
  unfolding create_group
  create_group-Created a st versioned = elim (Option-cases a.new_group) [
    | inl no_memory ↦
        subst (Created a st) {x = (st, none)}
          {y = create_group C offset_table table_size unknown_type max_concurrency fresh a st}
          (ground (arith, no_memory)) (λ r. ground (arith, no_memory))
    | inr (g, new) ↦
        let started = init C unknown_type fresh a g (new_group_at offset_table table_size a g st) in
        subst (Created a st) {x = add_or_delete C max_concurrency g started}
          {y = create_group C offset_table table_size unknown_type max_concurrency fresh a st}
          (ground (arith, new))
          (add-Created a st g new started (init-Initialised C unknown_type fresh a g _) versioned)
  ]
