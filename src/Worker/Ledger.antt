-- ===== src/Worker/Ledger.antt =====
-- dbrpc/task_control.cpp: the resources that `create_group` acquires and gives back.
use mathlib.Core.Path.{subst}
use brpc_source_code_analysi.Prelude.{
  ℕ, sym, suc, ◌≡◌, refl, ◌+◌, ◌<◌, ◌^◌, ◌==◌, ◌&&◌, if◌then◌else◌, Bool, true, false, Option, none,
  some, List, [], ◌∷◌, arith, inl, inr, Bool-cases, Option-cases, ==_refl, ==_eq,
}
use brpc_source_code_analysi.Task.Meta.{TaskMeta, TidCodec}
use brpc_source_code_analysi.Task.Life.{slot_meta}
use brpc_source_code_analysi.Worker.Construct.{
  Resource, ResourceCall, group_object, stack, slot, takes, gives, checks, Store, Answers, call,
  init, destruct, set_main, main_meta,
}
use brpc_source_code_analysi.Worker.Create.{delete_task_group}

abbrev pub is : Resource → Resource → Bool
is (group_object a) (group_object b) = a == b
is (stack a) (stack b) = a == b
is (slot a) (slot b) = a == b
is _ _ = false

abbrev pub taken : Resource → List ResourceCall → ℕ
taken r [] = 0
taken r (takes x ∷ cs) = if is x r then suc (taken r cs) else taken r cs
taken r (gives x ∷ cs) = taken r cs
taken r (checks b ∷ cs) = taken r cs

abbrev pub given : Resource → List ResourceCall → ℕ
given r [] = 0
given r (takes x ∷ cs) = given r cs
given r (gives x ∷ cs) = if is x r then suc (given r cs) else given r cs
given r (checks b ∷ cs) = given r cs

abbrev pub one : Resource → Resource → ℕ
one x r = if is x r then 1 else 0

-- `more` is what is held beyond what was held before.
abbrev pub Holds : List ResourceCall → List ResourceCall → (more : Resource → ℕ) → Type 0
Holds before after more =
    (r : Resource) → taken r after + given r before ≡ given r after + taken r before + more r

-- What a worker that has a group holds.
abbrev pub group_resources : (g stk n : ℕ) → Resource → ℕ
group_resources g stk n r = one (group_object g) r + one (stack stk) r + one (slot n) r

abbrev pub nothing : Resource → ℕ
nothing r = 0

-- The main stack, when it was got and the slot for the main task was not.
abbrev pub stack_without_slot : Option ℕ → Option ℕ → Resource → ℕ
stack_without_slot (some stk) none r = one (stack stk) r
stack_without_slot (some stk) (some n) r = 0
stack_without_slot none n r = 0

abbrev pub lost : Answers → Resource → ℕ
lost a r = elim a.new_group [
  | none ↦ 0
  | some g ↦
      if a.rq_init && a.remote_rq_init then stack_without_slot a.get_stack a.get_resource r else 0
]

-- The version of a slot and the slot fit into 32 bits, and the version is not 0.
abbrev pub IsVersioned : TaskMeta → ℕ → Type 0
IsVersioned m n = (0 < m.version_butex) × (m.version_butex < 2 ^ 32) × (n < 2 ^ 32)

-- The group has its main task in slot `n`, on stack `stk`.
pub record IsInitialised (C : TidCodec) (g stk n : ℕ) (st : Store) : Type 0 where
  pub has_tid : ((st.objects g).main_tid == 0) ≡ false
  pub has_slot : C.get_slot (st.objects g).main_tid ≡ n
  pub has_stack : st.stacks n ≡ some stk
  pub is_main : (st.objects g).main_stack ≡ some stk

module _ (C : TidCodec) where
  pub delete-uninitialised :
      (g : ℕ) (st : Store)
      → (st.objects g).main_tid ≡ 0
      → (delete_task_group C g st).calls ≡ gives (group_object g) ∷ st.calls
  unfolding delete_task_group destruct
  delete-uninitialised g st e = ground (arith, e)

  pub delete-IsInitialised :
      (g stk n : ℕ) (st : Store)
      → IsInitialised C g stk n st
      → (delete_task_group C g st).calls
        ≡ gives (group_object g) ∷ gives (slot n) ∷ gives (stack stk) ∷ checks true ∷ st.calls
  unfolding delete_task_group destruct
  delete-IsInitialised g stk n st i =
      ground (arith, i.has_tid, i.has_slot, i.has_stack, i.is_main, ==_refl stk)

  nonzero_tid : (v n : ℕ) → 0 < v → v < 2 ^ 32 → n < 2 ^ 32 → (C.make_tid v n == 0) ≡ false
  nonzero_tid v n pos small slot_small = elim (Bool-cases (C.make_tid v n == 0)) [
    | inl is_zero ↦
        absurd (omega (arith, C.version-make_tid v n small slot_small, ==_eq _ _ is_zero, pos))
    | inr other ↦ other
  ]

module _ (C : TidCodec) (unknown_type : ℕ) (fresh : TaskMeta) where
  pub set_main-IsInitialised :
      (a : Answers) (g stk n : ℕ) (st : Store)
      → IsVersioned (slot_meta fresh (st.pool n)) n
      → IsInitialised C g stk n (set_main C unknown_type fresh a g stk n st)
  unfolding main_meta
  set_main-IsInitialised a g stk n st (pos, small, slot_small) = record {
    has_tid = rw (==_refl g) (nonzero_tid C _ n pos small slot_small);
    has_slot = rw (==_refl g) (C.slot-make_tid _ n small slot_small);
    has_stack = rw (==_refl n) refl;
    is_main = rw (==_refl g) refl;
  }

  -- `init` of a group that was just constructed, by its answer.
  abbrev pub Initialised : Answers → (g : ℕ) → (before : Store) → Store × Bool → Type 0
  Initialised a g before (st, true) =
      (stk : ℕ) × (n : ℕ) × (a.get_stack ≡ some stk)
      × (a.get_resource ≡ some n)
      × (st
          ≡ set_main C unknown_type fresh a g stk n
              (call (takes (slot n)) (call (takes (stack stk)) before)))
  Initialised a g before (st, false) =
      ((st.objects g).main_tid ≡ (before.objects g).main_tid)
      × Holds before.calls st.calls (λ r.
        if a.rq_init && a.remote_rq_init
        then stack_without_slot a.get_stack a.get_resource r
        else 0)

  init-by :
      (a : Answers) (g : ℕ) (st : Store) (r : Store × Bool)
      → init C unknown_type fresh a g st ≡ r
      → Initialised a g st r
      → Initialised a g st (init C unknown_type fresh a g st)
  init-by a g st r e i = subst (Initialised a g st) (sym e) i

  pub init-Initialised :
      (a : Answers) (g : ℕ) (st : Store) → Initialised a g st (init C unknown_type fresh a g st)
  unfolding init
  init-Initialised a g st = elim (Bool-cases a.rq_init) [
    | inr no_rq ↦
        init-by a g st (st, false) (ground (arith, no_rq)) (refl, λ r. ground (arith, no_rq))
    | inl rq ↦ elim (Bool-cases a.remote_rq_init) [
      | inr no_remote ↦
          init-by a g st (st, false) (ground (arith, rq, no_remote))
            (refl, λ r. ground (arith, no_remote))
      | inl remote ↦ elim (Option-cases a.get_stack) [
        | inl no_stack ↦
            init-by a g st (st, false) (ground (arith, rq, remote, no_stack))
              (refl, λ r. ground (arith, no_stack))
        | inr (stk, got) ↦ elim (Option-cases a.get_resource) [
          | inl no_slot ↦
              init-by a g st (call (takes (stack stk)) st, false)
                (ground (arith, rq, remote, got, no_slot))
                (refl, λ r. ground (arith, rq, remote, got, no_slot))
          | inr (n, found) ↦
              init-by a g st
                (
                  set_main C unknown_type fresh a g stk n
                      (call (takes (slot n)) (call (takes (stack stk)) st)),
                  true,
                )
                (ground (arith, rq, remote, got, found)) (stk, n, got, found, refl)
        ]
      ]
    ]
  ]
