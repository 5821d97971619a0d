-- ===== src/Task/Edits.antt =====
-- dbrpc/task_group.cpp: the version of a slot under the functions on identifiers.
use mathlib.Core.Path.{subst}
use mathlib.Core.Option.{some-injective}
use brpc_source_code_analysi.Prelude.{
  ℕ, ◌≡◌, ◌⊎◌, refl, sym, ap, ◌∙◌, arith, ◌==◌, ◌&&◌, not, true, Option, none, some, Bool-cases,
  Option-cases, inl, inr, ==_eq,
}
use brpc_source_code_analysi.Butex.State.{Unscheduled}
use brpc_source_code_analysi.Task.Meta.{
  TaskMeta, Attr, TidCodec, Pool, set_meta, address_meta, is_current, set_stopped,
}
use brpc_source_code_analysi.Task.Life.{started, start_task, slot_meta, attr_or, init_meta}
use brpc_source_code_analysi.Task.Interrupt.{
  interrupt_and_consume_waiters, set_butex_waiter, add_sleep_event,
}

-- The slot was handed out and has this version.
abbrev pub HasVersion : ℕ → ℕ → Pool → Type 0
HasVersion slot v p = (m : TaskMeta) × (p slot ≡ some m) × (m.version_butex ≡ v)

abbrev pub KeepsVersion : (slot : ℕ) → Pool → Pool → Type 0
KeepsVersion slot p p' = (v : ℕ) → HasVersion slot v p → HasVersion slot v p'

set_meta-KeepsVersion :
    (slot at : ℕ) (m' : TaskMeta) (p : Pool)
    → ((m : TaskMeta) → p at ≡ some m → m'.version_butex ≡ m.version_butex)
    → KeepsVersion slot p (set_meta at m' p)
set_meta-KeepsVersion slot at m' p same_version v (m0, found, e) = elim (Bool-cases (at == slot)) [
  | inl here ↦ (m', ground (arith, here), same_version m0 (ap p (==_eq at slot here) ∙ found) ∙ e)
  | inr there ↦ (m0, ground (arith, there, found), e)
]

refl-KeepsVersion : (slot : ℕ) (p : Pool) → KeepsVersion slot p p
refl-KeepsVersion slot p v has = has

module _ (C : TidCodec) where
  open C use {get_slot}

  -- The pool as it was, or another meta of the same version in a slot that was handed out.
  abbrev pub Edited : Pool → Pool → Type 0
  Edited p p' =
      (p' ≡ p)
      ⊎ ((at : ℕ) × (m m' : TaskMeta) × (p at ≡ some m)
          × (m'.version_butex ≡ m.version_butex)
          × (p' ≡ set_meta at m' p))

  pub Edited-KeepsVersion : (slot : ℕ) (p p' : Pool) → Edited p p' → KeepsVersion slot p p'
  Edited-KeepsVersion slot p p' (inl e) =
      subst (λ q. KeepsVersion slot p q) (sym e) (refl-KeepsVersion slot p)
  Edited-KeepsVersion slot p p' (inr (at, m, m', found, same_version, e)) =
      subst (λ q. KeepsVersion slot p q) (sym e)
        (set_meta-KeepsVersion slot at m' p (λ m0 found0.
          same_version ∙ ap (λ n. n.version_butex) (some-injective _ _ (sym found ∙ found0))))

  pub set_stopped-Edited : (tid : ℕ) (p : Pool) → Edited p (set_stopped C tid p)
  unfolding set_stopped address_meta
  set_stopped-Edited tid p = elim (Option-cases (p (get_slot tid))) [
    | inl missing ↦ inl (ground (arith, missing))
    | inr (m, found) ↦ elim (Bool-cases (is_current C m tid)) [
      | inl current ↦
          inr
            (get_slot tid, m, record m { stop = true }, found, refl, ground (arith, found, current))
      | inr stale ↦ inl (ground (arith, found, stale))
    ]
  ]

  pub set_butex_waiter-Edited :
      (tid w : ℕ) (p p' : Pool) → set_butex_waiter C tid w p ≡ some p' → Edited p p'
  unfolding set_butex_waiter address_meta
  set_butex_waiter-Edited tid w p p' e = elim (Option-cases (p (get_slot tid))) [
    | inl missing ↦ inl (ground (arith, missing, e))
    | inr (m, found) ↦ elim (Bool-cases (is_current C m tid)) [
      | inl current ↦ inr (
        get_slot tid,
        m,
        record m { current_waiter = some w },
        found,
        refl,
        ground (arith, found, current, e),
      )
      | inr stale ↦ inl (ground (arith, found, stale, e))
    ]
  ]

  pub consume-Edited :
      (tid : ℕ) (p : Pool) (w : Option ℕ) (sleep_id : ℕ) (p' : Pool)
      → interrupt_and_consume_waiters C tid p ≡ some (w, sleep_id, p')
      → Edited p p'
  unfolding interrupt_and_consume_waiters address_meta
  consume-Edited tid p w sleep_id p' e = elim (Option-cases (p (get_slot tid))) [
    | inl missing ↦ inl (ground (arith, missing, e))
    | inr (m, found) ↦ elim (Bool-cases (is_current C m tid)) [
      | inl current ↦ inr (
        get_slot tid,
        m,
        record m { current_waiter = none; current_sleep = 0; interrupted = true },
        found,
        refl,
        ground (arith, found, current, e),
      )
      | inr stale ↦ inl (ground (arith, found, stale, e))
    ]
  ]

  pub add_sleep_event-Edited :
      (timer_unschedule : ℕ → Unscheduled) (sleep_id tid : ℕ) (p : Pool)
      → Edited p (add_sleep_event C timer_unschedule sleep_id tid p).0
  unfolding add_sleep_event address_meta
  add_sleep_event-Edited timer_unschedule sleep_id tid p = elim (Option-cases (p (get_slot tid))) [
    | inl missing ↦ inl (ground (arith, missing))
    | inr (m, found) ↦
        elim (Bool-cases (not (sleep_id == 0) && (is_current C m tid && not m.interrupted))) [
          | inl added ↦ inr (
            get_slot tid,
            m,
            record m { current_sleep = sleep_id },
            found,
            refl,
            ground (arith, found, added),
          )
          | inr not_added ↦ inl (ground (arith, found, not_added))
        ]
  ]

  pub start_task-KeepsVersion :
      (slot : ℕ) (get_resource : Option ℕ) (fresh : TaskMeta) (fn arg now : ℕ) (attr : Option Attr)
      (normal : Attr) (p : Pool) (tid : ℕ) (p' : Pool)
      → start_task C get_resource fresh fn arg now attr normal p ≡ started tid p'
      → KeepsVersion slot p p'
  unfolding start_task init_meta
  start_task-KeepsVersion slot none fresh fn arg now attr normal p tid p' e =
      absurd (ground (arith, e))
  start_task-KeepsVersion slot (some at) fresh fn arg now attr normal p tid p' e =
      let m = slot_meta fresh (p at) in
      let m' : TaskMeta = init_meta C at fn arg now (attr_or normal attr) m in
      let e' : p' ≡ set_meta at m' p = ground (arith, e) in
      subst (λ q. KeepsVersion slot p q) (sym e')
        (set_meta-KeepsVersion slot at m' p
          (λ m0 found0. ap (λ o. (slot_meta fresh o).version_butex) found0))
