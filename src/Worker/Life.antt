-- ===== src/Worker/Life.antt =====
-- dbrpc/task_control.cpp: the end of a worker, from `destroy_self` to the delayed deletion of its
-- group.
use mathlib.Core.Path.{subst}
use brpc_source_code_analysi.Prelude.{
  ℕ, refl, sym, ap, ◌∙◌, ◌≡◌, ◌≢◌, ◌<◌, ◌==◌, true, false, none, some, List, ◌∷◌, ◌++◌, arith,
  dec_lt, ==_refl, ==_eq, inl, inr, Bool-cases, Option-cases,
}
use brpc_source_code_analysi.Task.Meta.{TidCodec}
use brpc_source_code_analysi.Control.Groups.{Effect, schedule_delete, delete_group}
use brpc_source_code_analysi.Control.Table.{occurrences, delete_group-DeletedCases}
use brpc_source_code_analysi.Worker.Construct.{ResourceCall, checks, call, Store, set_object}
use brpc_source_code_analysi.Worker.Ledger.{
  Holds, group_resources, nothing, IsInitialised, delete-IsInitialised,
}
use brpc_source_code_analysi.Worker.Create.{
  Destroyed, destroyed, check_failed, wild_pointer, destroy_self, delete_task_group, after_table,
}

-- The store after `destroy_self` of a group whose `_control` is this control.
abbrev retired : ℕ → Store → Store
retired g st =
    let st' = after_table (delete_group (some g) true st.table) st in
    set_object g (record (st'.objects g) { control = none }) st'

destroy_self-retired :
    (this_control g : ℕ) (st : Store)
    → (st.objects g).control ≡ some this_control
    → destroy_self this_control g st ≡ (retired g st, destroyed)
unfolding destroy_self
destroy_self-retired this_control g st e = ground (arith, e, ==_refl this_control)

retired-IsInitialised :
    (C : TidCodec) (g stk n : ℕ) (st : Store)
    → IsInitialised C g stk n st
    → IsInitialised C g stk n (retired g st)
retired-IsInitialised C g stk n st i = record {
  has_tid = rw (==_refl g) i.has_tid;
  has_slot = rw (==_refl g) i.has_slot;
  has_stack = i.has_stack;
  is_main = rw (==_refl g) i.is_main;
}

-- How a worker's group ends: deleted after the delay, or never.
pub data Ends (C : TidCodec) (g stk n : ℕ) (before : List ResourceCall) (st st' : Store)
    : Type 0 where
  deleted :
      0 < occurrences g st.table
      → st'.asked ≡ schedule_delete g ∷ st.asked
      → Holds before (delete_task_group C g st').calls nothing
      → Ends C g stk n before st st'
  leaked :
      occurrences g st.table ≡ 0
      → st'.asked ≡ st.asked
      → Holds before st'.calls (group_resources g stk n)
      → Ends C g stk n before st st'

retired-Ends :
    (C : TidCodec) (g stk n : ℕ) (before : List ResourceCall) (st : Store)
    → IsInitialised C g stk n st
    → Holds before st.calls (group_resources g stk n)
    → Ends C g stk n before st (retired g st)
retired-Ends C g stk n before st i held =
    let d = delete_group-DeletedCases g st.table in
    let gone =
      delete-IsInitialised C g stk n (retired g st) (retired-IsInitialised C g stk n st i) in
    elim (dec_lt 0 (occurrences g st.table)) [
      | yes there ↦
          deleted there (ap (λ (l : List Effect). l ++ st.asked) (d.found there))
            (λ r. ground (arith, gone, held r))
      | no missing ↦
          let absent : occurrences g st.table ≡ 0 = omega (arith, missing) in
          leaked absent (ap (λ (l : List Effect). l ++ st.asked) (d.missing absent).1) (λ r. held r)
    ]

-- The calls of a worker's `destroy_self` by what the memory of its group held for `_control`.
pub data Destruction (C : TidCodec) (this_control g stk n : ℕ) (before : List ResourceCall)
    (st : Store) : Store × Destroyed → Type 0 where
  of_this_control :
      (st' : Store)
      → (st.objects g).control ≡ some this_control
      → Ends C g stk n before st st'
      → Destruction C this_control g stk n before st (st', destroyed)
  of_no_control :
      (st' : Store)
      → (st.objects g).control ≡ none
      → st'.asked ≡ st.asked
      → st'.table ≡ st.table
      → Holds before st'.calls (group_resources g stk n)
      → Destruction C this_control g stk n before st (st', check_failed)
  of_elsewhere :
      (c : ℕ)
      → (st.objects g).control ≡ some c
      → c ≢ this_control
      → Destruction C this_control g stk n before st (st, wild_pointer)

destroy_self-none :
    (this_control g : ℕ) (st : Store)
    → (st.objects g).control ≡ none
    → destroy_self this_control g st ≡ (call (checks false) st, check_failed)
unfolding destroy_self
destroy_self-none this_control g st e = ground (arith, e)

destroy_self-elsewhere :
    (this_control g c : ℕ) (st : Store)
    → (st.objects g).control ≡ some c
    → (c == this_control) ≡ false
    → destroy_self this_control g st ≡ (st, wild_pointer)
unfolding destroy_self
destroy_self-elsewhere this_control g c st e other = ground (arith, e, other)

-- The end of a worker, for a group that is as it was initialised, whatever its memory held for
-- `_control`, which the constructor does not set. If that is this control and the group is in the
-- table, its deletion is scheduled, and when the timer makes the call, all that was acquired for the
-- group has been given back; if the group is not in the table, as after `stop_and_join` or when the
-- table was full, nothing is scheduled and all of it stays held. If it is NULL, a check fails, nothing
-- is scheduled, the table keeps what it has and all of it stays held. If it is anything else, the call
-- goes to a control that is not there.
pub destroy_self-Ends :
    (C : TidCodec) (this_control g stk n : ℕ) (before : List ResourceCall) (st : Store)
    → IsInitialised C g stk n st
    → Holds before st.calls (group_resources g stk n)
    → Destruction C this_control g stk n before st (destroy_self this_control g st)
destroy_self-Ends C this_control g stk n before st i held =
    elim (Option-cases (st.objects g).control) [
      | inl absent ↦
          subst (Destruction C this_control g stk n before st)
            (sym (destroy_self-none this_control g st absent))
            (of_no_control (call (checks false) st) absent refl refl (λ r. ground (arith, held r)))
      | inr (c, has) ↦ elim (Bool-cases (c == this_control)) [
        | inl mine ↦
            let here : (st.objects g).control ≡ some this_control =
              has ∙ ap some (==_eq c this_control mine) in
            subst (Destruction C this_control g stk n before st)
              (sym (destroy_self-retired this_control g st here))
              (of_this_control (retired g st) here (retired-Ends C g stk n before st i held))
        | inr other ↦
            subst (Destruction C this_control g stk n before st)
              (sym (destroy_self-elsewhere this_control g c st has other))
              (of_elsewhere c has (λ e. ground (arith, other, e)))
      ]
    ]
