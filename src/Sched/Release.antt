-- ===== src/Sched/Release.antt =====
-- dbrpc/task_group.cpp: `_release_last_context`, which the next task runs for the one that ended.
use mathlib.Core.Path.{subst}
use brpc_source_code_analysi.Prelude.{
  ℕ, ◌≡◌, ◌≢◌, refl, sym, ap, ◌∙◌, arith, Option, none, some, List, [], ◌∷◌, ◌==◌, if◌then◌else◌,
  false, inl, inr, Bool-cases, Option-cases, ==_refl,
}
use brpc_source_code_analysi.Sched.Switch.{
  State, set_stack, new_stack, account, exchange_storage, sched_to, ending_sched,
}
use brpc_source_code_analysi.Sched.Stacks.{HasOwnStacks, GivesFresh, new_stack-IsReady, given_away}
use brpc_source_code_analysi.Sched.Handover.{
  hand_over-has, hand_over-same_type, hand_over-other_type,
}

-- `return_stack` and `return_resource`.
pub data Returned : Type 0 where
  stack : (s : ℕ) → Returned
  slot : (n : ℕ) → Returned

abbrev pub return_stack : Option ℕ → List Returned → List Returned
return_stack none calls = calls
return_stack (some x) calls = stack x ∷ calls

-- `slot_of` is `get_slot(m->tid)`; the calls are newest first. The main stack is not returned.
unfoldable pub run_release_last_context :
    (pthread_type : ℕ) (slot_of : ℕ → ℕ) (task : ℕ) → State × List Returned → State × List Returned
run_release_last_context pthread_type slot_of task (s, calls) = (
  set_stack task none s,
  slot (slot_of task)
      ∷ (if (s.tasks task).stack_type == pthread_type
          then calls
          else return_stack (s.tasks task).stack calls),
)

sched_to-stacks :
    (now next a : ℕ) (s : State)
    → ((((sched_to now next s).0.tasks a).stack) ≡ (s.tasks a).stack)
      × ((((sched_to now next s).0.tasks a).stack_type) ≡ (s.tasks a).stack_type)
unfolding sched_to account exchange_storage
sched_to-stacks now next a s = ground arith

-- The stack of an ending task, and what was returned for it: the stack, after which no task has it; or
-- nothing but the slot, because the next task has the stack now.
pub data Released (slot_of : ℕ → ℕ) (cur next x : ℕ) (s : State) (calls : List Returned)
    : Type 0 where
  gave_back :
      calls ≡ slot (slot_of cur) ∷ stack x ∷ []
      → ((a : ℕ) → (s.tasks a).stack ≢ some x)
      → Released slot_of cur next x s calls
  handed_over :
      calls ≡ slot (slot_of cur) ∷ []
      → (s.tasks next).stack ≡ some x
      → (s.tasks cur).stack ≡ none
      → Released slot_of cur next x s calls

module _ (pthread_type : ℕ) (get_stack : ℕ → Option ℕ) (slot_of : ℕ → ℕ) (now next x : ℕ)
    (s : State) (own : HasOwnStacks s) (fresh : GivesFresh get_stack s)
    (other : next ≢ s.group.cur_meta) (has : (s.tasks s.group.cur_meta).stack ≡ some x)
    (not_main : x ≢ s.group.main_stack)
    (bthread : ((s.tasks s.group.cur_meta).stack_type == pthread_type) ≡ false) where
  abbrev cur : ℕ
  cur = s.group.cur_meta

  abbrev after : State → State × List Returned
  after s1 = run_release_last_context pthread_type slot_of cur ((sched_to now next s1).0, [])

  -- The ending task still has its stack when it leaves.
  kept-Released :
      (s1 : State)
      → s1.group ≡ s.group
      → HasOwnStacks s1
      → (s1.tasks cur).stack ≡ some x
      → ((s1.tasks cur).stack_type == pthread_type) ≡ false
      → Released slot_of cur next x (after s1).0 (after s1).1
  unfolding run_release_last_context
  kept-Released s1 group own1 has1 type1 =
      let at_cur = sched_to-stacks now next cur s1 in
      gave_back (ground (arith, at_cur, has1, type1)) (λ a stacked. elim (Bool-cases (cur == a)) [
        | inl is_cur ↦ absurd (ground (arith, stacked, is_cur))
        | inr is_other ↦
            let same_task =
              own1 a cur x (λ e. not_main (e ∙ ap (λ g. g.main_stack) group))
                (ground (arith, stacked, is_other, sched_to-stacks now next a s1)) has1 in
            absurd (ground (arith, same_task, is_other))
      ])

  given-Released :
      Released slot_of cur next x (after (given_away next s)).0 (after (given_away next s)).1
  unfolding run_release_last_context given_away
  given-Released =
      handed_over (ground (arith, sched_to-stacks now next cur (given_away next s), other, bthread))
        (ground (arith, sched_to-stacks now next next (given_away next s), other, has))
        (ground (arith, ==_refl cur))

  new_stack-keeps :
      (((new_stack pthread_type get_stack next s).tasks cur).stack ≡ some x)
      × ((((new_stack pthread_type get_stack next s).tasks cur).stack_type == pthread_type) ≡ false)
      × ((new_stack pthread_type get_stack next s).group ≡ s.group)
  unfolding new_stack
  new_stack-keeps = ground (arith, other, has, bthread)

  -- When a bthread ends, its stack lives on once: `ending_sched` and then `_release_last_context`
  -- either return it, and no task has it any more, or have given it to the next task and return only
  -- the slot. Tasks do not share stacks before, `get_stack` answers unused ones, the next task is
  -- another one, and the one that ends is no pthread task and not on the main stack.
  pub ending_sched-Released :
      let s' = (ending_sched pthread_type get_stack now next s).0 in
      let (end, calls) = run_release_last_context pthread_type slot_of cur (s', []) in
      Released slot_of cur next x end calls
  unfolding ending_sched
  ending_sched-Released =
      let done = λ (s1 : State). Released slot_of cur next x (after s1).0 (after s1).1 in
      elim (Option-cases (s.tasks next).stack) [
        | inr (y, has_stack) ↦
            subst done (sym (hand_over-has pthread_type get_stack next y s has_stack))
              (kept-Released s refl own has bthread)
        | inl bare ↦ elim (Bool-cases ((s.tasks next).stack_type == (s.tasks cur).stack_type)) [
          | inl same_type ↦
              subst done (sym (hand_over-same_type pthread_type get_stack next s bare same_type))
                given-Released
          | inr other_type ↦
              let (still, type, group) = new_stack-keeps in
              subst done (sym (hand_over-other_type pthread_type get_stack next s bare other_type))
                (kept-Released (new_stack pthread_type get_stack next s) group
                  (new_stack-IsReady pthread_type get_stack next s own fresh).0 still type)
        ]
      ]
