-- ===== src/Sched/Handover.antt =====
-- dbrpc/task_group.cpp: the stack of the next task, and how `sched_to` goes on.

use mathlib.Core.Path.{subst}
use brpc_source_code_analysi.Prelude.{
  ℕ, ◌≡◌, ◌≢◌, sym, ap, ◌∙◌, arith, Option, none, some, ◌==◌, true, false, inl, inr, Bool-cases,
  Option-cases,
}
use brpc_source_code_analysi.Sched.Switch.{
  State, fatal, new_stack, ensure_stack, hand_over, account, exchange_storage, sched_to,
  ending_sched,
}
use brpc_source_code_analysi.Sched.Stacks.{
  HasOwnStacks, GivesFresh, IsReady, new_stack-IsReady, given_away, given_away-IsReady,
  HasOwnStacks-IsReady,
}

ensure_stack-has :
    (pthread_type : ℕ) (get_stack : ℕ → Option ℕ) (next y : ℕ) (s : State)
    → (s.tasks next).stack ≡ some y
    → ensure_stack pthread_type get_stack next s ≡ s
unfolding ensure_stack
ensure_stack-has pthread_type get_stack next y s has = ground (arith, has)

ensure_stack-bare :
    (pthread_type : ℕ) (get_stack : ℕ → Option ℕ) (next : ℕ) (s : State)
    → (s.tasks next).stack ≡ none
    → ensure_stack pthread_type get_stack next s ≡ new_stack pthread_type get_stack next s
unfolding ensure_stack
ensure_stack-bare pthread_type get_stack next s bare = ground (arith, bare)

pub hand_over-has :
    (pthread_type : ℕ) (get_stack : ℕ → Option ℕ) (next y : ℕ) (s : State)
    → (s.tasks next).stack ≡ some y
    → hand_over pthread_type get_stack next s ≡ s
unfolding hand_over
hand_over-has pthread_type get_stack next y s has = ground (arith, has)

pub hand_over-same_type :
    (pthread_type : ℕ) (get_stack : ℕ → Option ℕ) (next : ℕ) (s : State)
    → (s.tasks next).stack ≡ none
    → ((s.tasks next).stack_type == (s.tasks s.group.cur_meta).stack_type) ≡ true
    → hand_over pthread_type get_stack next s ≡ given_away next s
unfolding hand_over given_away
hand_over-same_type pthread_type get_stack next s bare same_type = ground (arith, bare, same_type)

pub hand_over-other_type :
    (pthread_type : ℕ) (get_stack : ℕ → Option ℕ) (next : ℕ) (s : State)
    → (s.tasks next).stack ≡ none
    → ((s.tasks next).stack_type == (s.tasks s.group.cur_meta).stack_type) ≡ false
    → hand_over pthread_type get_stack next s ≡ new_stack pthread_type get_stack next s
unfolding hand_over
hand_over-other_type pthread_type get_stack next s bare other_type =
    ground (arith, bare, other_type)

-- `ending_sched` gives the next task a stack, and afterwards still no two tasks have the same one,
-- but for the main stack. The ending task has a stack, and what `get_stack` answers is unused.
pub hand_over-IsReady :
    (pthread_type : ℕ) (get_stack : ℕ → Option ℕ) (next x : ℕ) (s : State)
    → HasOwnStacks s
    → GivesFresh get_stack s
    → (s.tasks s.group.cur_meta).stack ≡ some x
    → IsReady next (hand_over pthread_type get_stack next s)
hand_over-IsReady pthread_type get_stack next x s own fresh has =
    elim (Option-cases (s.tasks next).stack) [
      | inr (y, next_has) ↦
          subst (λ q. IsReady next q) (sym (hand_over-has pthread_type get_stack next y s next_has))
            (HasOwnStacks-IsReady next y s own next_has)
      | inl bare ↦
          elim (Bool-cases ((s.tasks next).stack_type == (s.tasks s.group.cur_meta).stack_type)) [
            | inl same_type ↦
                subst (λ q. IsReady next q)
                  (sym (hand_over-same_type pthread_type get_stack next s bare same_type))
                  (given_away-IsReady next x s own has)
            | inr other_type ↦
                subst (λ q. IsReady next q)
                  (sym (hand_over-other_type pthread_type get_stack next s bare other_type))
                  (new_stack-IsReady pthread_type get_stack next s own fresh)
          ]
    ]

-- `sched_to` of a task that is given by its identifier gives that task a stack if it has none, and
-- still no two tasks have the same one, but for the main stack. What `get_stack` answers is unused.
pub ensure_stack-IsReady :
    (pthread_type : ℕ) (get_stack : ℕ → Option ℕ) (next : ℕ) (s : State)
    → HasOwnStacks s
    → GivesFresh get_stack s
    → IsReady next (ensure_stack pthread_type get_stack next s)
ensure_stack-IsReady pthread_type get_stack next s own fresh =
    elim (Option-cases (s.tasks next).stack) [
      | inr (y, next_has) ↦
          subst (λ q. IsReady next q)
            (sym (ensure_stack-has pthread_type get_stack next y s next_has))
            (HasOwnStacks-IsReady next y s own next_has)
      | inl bare ↦
          subst (λ q. IsReady next q) (sym (ensure_stack-bare pthread_type get_stack next s bare))
            (new_stack-IsReady pthread_type get_stack next s own fresh)
    ]

bare_current-fatal :
    (now next : ℕ) (s : State)
    → next ≢ s.group.cur_meta
    → (s.tasks s.group.cur_meta).stack ≡ none
    → (sched_to now next s).1 ≡ fatal
unfolding sched_to account exchange_storage
bare_current-fatal now next s other bare = ground (arith, other, bare)

-- A bthread that ends hands its stack to a new task of the same stack type, and then `sched_to`
-- takes the branch of LOG(FATAL), in place of running on the same stack.
pub ending_sched_handover_fatal :
    (pthread_type : ℕ) (get_stack : ℕ → Option ℕ) (now next : ℕ) (s : State)
    → next ≢ s.group.cur_meta
    → (s.tasks next).stack ≡ none
    → (s.tasks next).stack_type ≡ (s.tasks s.group.cur_meta).stack_type
    → (ending_sched pthread_type get_stack now next s).1 ≡ fatal
unfolding ending_sched given_away
ending_sched_handover_fatal pthread_type get_stack now next s other bare same_type =
    let e = hand_over-same_type pthread_type get_stack next s bare (ground (arith, same_type)) in
    ap (λ q. (sched_to now next q).1) e
    ∙ bare_current-fatal now next (given_away next s) other (ground (arith, other))
