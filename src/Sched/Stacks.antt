-- ===== src/Sched/Stacks.antt =====
-- dbrpc/task_group.cpp and dbrpc/task_group_inl.h: the stacks of tasks.

use mathlib.Core.Path.{subst}
use brpc_source_code_analysi.Prelude.{
  ℕ, ◌≡◌, ◌≢◌, refl, sym, arith, Option, none, some, ◌==◌, inl, inr, Bool-cases, Option-cases,
}
use brpc_source_code_analysi.Sched.Switch.{Task, State, set_task, set_stack, new_stack}

-- No two tasks have the same stack, but for the main stack of the group, on which pthread tasks run.
abbrev pub HasOwnStacks : State → Type 0
HasOwnStacks s =
    (a b x : ℕ)
    → x ≢ s.group.main_stack
    → (s.tasks a).stack ≡ some x
    → (s.tasks b).stack ≡ some x
    → a ≡ b

-- What `get_stack` answers is no stack of a task and not the main stack.
abbrev pub GivesFresh : (get_stack : ℕ → Option ℕ) → State → Type 0
GivesFresh get_stack s =
    (type x : ℕ)
    → get_stack type ≡ some x
    → (x ≢ s.group.main_stack) × ((a : ℕ) → (s.tasks a).stack ≢ some x)

unused-HasOwnStacks :
    (next y : ℕ) (t : Task) (s : State)
    → t.stack ≡ some y
    → HasOwnStacks s
    → ((a : ℕ) → (s.tasks a).stack ≢ some y)
    → HasOwnStacks (set_task next t s)
unused-HasOwnStacks next y t s set own unused a b x other ha hb = elim (Bool-cases (next == a)) [
  | inl is_a ↦ elim (Bool-cases (next == b)) [
    | inl is_b ↦ ground (arith, is_a, is_b)
    | inr not_b ↦ absurd (unused b (ground (arith, is_a, not_b, ha, hb, set)))
  ]
  | inr not_a ↦ elim (Bool-cases (next == b)) [
    | inl is_b ↦ absurd (unused a (ground (arith, not_a, is_b, ha, hb, set)))
    | inr not_b ↦ own a b x other (ground (arith, not_a, ha)) (ground (arith, not_b, hb))
  ]
]

main-HasOwnStacks :
    (next : ℕ) (t : Task) (s : State)
    → t.stack ≡ some s.group.main_stack
    → HasOwnStacks s
    → HasOwnStacks (set_task next t s)
main-HasOwnStacks next t s set own a b x other ha hb = elim (Bool-cases (next == a)) [
  | inl is_a ↦ absurd (other (ground (arith, is_a, ha, set)))
  | inr not_a ↦ elim (Bool-cases (next == b)) [
    | inl is_b ↦ absurd (other (ground (arith, is_b, hb, set)))
    | inr not_b ↦ own a b x other (ground (arith, not_a, ha)) (ground (arith, not_b, hb))
  ]
]

cleared-HasOwnStacks : (cur : ℕ) (s : State) → HasOwnStacks s → HasOwnStacks (set_stack cur none s)
cleared-HasOwnStacks cur s own a b x other ha hb = elim (Bool-cases (cur == a)) [
  | inl is_a ↦ absurd (ground (arith, is_a, ha))
  | inr not_a ↦ elim (Bool-cases (cur == b)) [
    | inl is_b ↦ absurd (ground (arith, is_b, hb))
    | inr not_b ↦ own a b x other (ground (arith, not_a, ha)) (ground (arith, not_b, hb))
  ]
]

cleared-unused :
    (cur x : ℕ) (s : State)
    → HasOwnStacks s
    → (s.tasks cur).stack ≡ some x
    → x ≢ s.group.main_stack
    → (a : ℕ) → ((set_stack cur none s).tasks a).stack ≢ some x
cleared-unused cur x s own has other a ha = elim (Bool-cases (cur == a)) [
  | inl is_a ↦ absurd (ground (arith, is_a, ha))
  | inr not_a ↦
      let is_cur = own a cur x other (ground (arith, not_a, ha)) has in
      absurd (ground (arith, not_a, is_cur))
]

abbrev main_task : ℕ → ℕ → State → Task
main_task pthread_type next s = record (s.tasks next) {
  stack_type = pthread_type;
  stack = some s.group.main_stack;
}

on_main : ℕ → ℕ → State → State
on_main pthread_type next s = set_task next (main_task pthread_type next s) s

new_stack-got :
    (pthread_type : ℕ) (get_stack : ℕ → Option ℕ) (next y : ℕ) (s : State)
    → get_stack (s.tasks next).stack_type ≡ some y
    → new_stack pthread_type get_stack next s ≡ set_stack next (some y) s
unfolding new_stack
new_stack-got pthread_type get_stack next y s got = ground (arith, got)

new_stack-failed :
    (pthread_type : ℕ) (get_stack : ℕ → Option ℕ) (next : ℕ) (s : State)
    → get_stack (s.tasks next).stack_type ≡ none
    → new_stack pthread_type get_stack next s ≡ on_main pthread_type next s
unfolding new_stack on_main
new_stack-failed pthread_type get_stack next s failed = ground (arith, failed)

-- The properties that a state has when the next task was given a stack.
abbrev pub IsReady : ℕ → State → Type 0
IsReady next s = HasOwnStacks s × ((s.tasks next).stack ≢ none)

given :
    (next y : ℕ) (t : Task) (s : State)
    → t.stack ≡ some y
    → ((set_task next t s).tasks next).stack ≢ none
given next y t s e absent = ground (arith, e, absent)

pub new_stack-IsReady :
    (pthread_type : ℕ) (get_stack : ℕ → Option ℕ) (next : ℕ) (s : State)
    → HasOwnStacks s
    → GivesFresh get_stack s
    → IsReady next (new_stack pthread_type get_stack next s)
unfolding on_main
new_stack-IsReady pthread_type get_stack next s own fresh =
    elim (Option-cases (get_stack (s.tasks next).stack_type)) [
      | inr (y, got) ↦
          let (_, unused) = fresh (s.tasks next).stack_type y got in
          subst (λ q. IsReady next q) (sym (new_stack-got pthread_type get_stack next y s got))
            (
              unused-HasOwnStacks next y (record (s.tasks next) { stack = some y }) s refl own
                  unused,
              given next y (record (s.tasks next) { stack = some y }) s refl,
            )
      | inl failed ↦
          subst (λ q. IsReady next q) (sym (new_stack-failed pthread_type get_stack next s failed))
            (
              main-HasOwnStacks next (main_task pthread_type next s) s refl own,
              given next s.group.main_stack (main_task pthread_type next s) s refl,
            )
    ]

-- The ending task gives its stack away.
unfoldable pub given_away : ℕ → State → State
given_away next s =
    set_stack next (s.tasks s.group.cur_meta).stack (set_stack s.group.cur_meta none s)

pub given_away-IsReady :
    (next x : ℕ) (s : State)
    → HasOwnStacks s
    → (s.tasks s.group.cur_meta).stack ≡ some x
    → IsReady next (given_away next s)
unfolding given_away
given_away-IsReady next x s own has =
    let cur = s.group.cur_meta in
    let s0 : State = set_stack cur none s in
    let t : Task = record (s0.tasks next) { stack = (s.tasks cur).stack } in
    let own0 = cleared-HasOwnStacks cur s own in
    (
      elim (Bool-cases (x == s.group.main_stack)) [
        | inl is_main ↦ main-HasOwnStacks next t s0 (ground (arith, has, is_main)) own0
        | inr other ↦
            unused-HasOwnStacks next x t s0 has own0
              (cleared-unused cur x s own has (λ e. ground (arith, other, e)))
      ],
      given next x t s0 has,
    )

pub HasOwnStacks-IsReady :
    (next x : ℕ) (s : State) → HasOwnStacks s → (s.tasks next).stack ≡ some x → IsReady next s
HasOwnStacks-IsReady next x s own has = (own, λ absent. ground (arith, has, absent))
