-- ===== src/Task/Print.antt =====
-- dbrpc/task_group.cpp: `print_task`.
--
-- The text is a value that has what is printed; the key table is left out. `now` is the time.
use brpc_source_code_analysi.Prelude.{
  ℕ, ◌≡◌, ◌≢◌, ◌⊎◌, ◌-◌, if◌then◌else◌, Bool, true, false, none, some, arith, Bool-cases,
  Option-cases, inl, inr,
}
use brpc_source_code_analysi.Task.Meta.{
  TaskMeta, Attr, TidCodec, Pool, address_meta, is_current, exists, is_stopped,
}

pub record TaskText : Type 0 where
  pub stop : Bool
  pub interrupted : Bool
  pub about_to_quit : Bool
  pub fn : ℕ
  pub arg : ℕ
  pub attr : Attr
  pub uptime_ns : ℕ
  pub cputime_ns : ℕ
  pub nswitch : ℕ

pub data PrintedTask : Type 0 where
  never_existed not_exist_now : (tid : ℕ) → PrintedTask
  shown : (tid : ℕ) → TaskText → PrintedTask

abbrev pub text_of : (now : ℕ) → TaskMeta → TaskText
text_of now m = record {
  stop = m.stop;
  interrupted = m.interrupted;
  about_to_quit = m.about_to_quit;
  fn = m.fn;
  arg = m.arg;
  attr = m.attr;
  uptime_ns = now - m.cpuwide_start_ns;
  cputime_ns = m.cputime_ns;
  nswitch = m.nswitch;
}

module _ (C : TidCodec) where
  open C use {get_slot}

  unfoldable pub print_task : (now tid : ℕ) → Pool → PrintedTask
  print_task now tid p = elim (address_meta C p tid) [
    | none ↦ never_existed tid
    | some m ↦ if is_current C m tid then shown tid (text_of now m) else not_exist_now tid
  ]

  -- `print_task` agrees with the other functions that look an identifier up: it shows a task exactly
  -- when `exists` finds one, with the stop flag that `is_stopped` answers; where it says that there is
  -- none, `exists` finds none. The identifier is not 0.
  pub print_task-agrees :
      (now tid : ℕ) (p : Pool)
      → tid ≢ 0
      → ((text : TaskText) × (print_task now tid p ≡ shown tid text)
          × (exists C tid p ≡ true)
          × (text.stop ≡ is_stopped C tid p))
        ⊎ ((print_task now tid p ≡ not_exist_now tid) × (exists C tid p ≡ false))
        ⊎ ((print_task now tid p ≡ never_existed tid) × (exists C tid p ≡ false))
  unfolding print_task exists is_stopped address_meta
  print_task-agrees now tid p nonzero = elim (Option-cases (p (get_slot tid))) [
    | inl never ↦ inr (inr (ground (arith, never), ground (arith, never)))
    | inr (m, found) ↦ elim (Bool-cases (is_current C m tid)) [
      | inl current ↦ inl (
        text_of now m,
        ground (arith, found, current),
        ground (arith, found, current, nonzero),
        ground (arith, found, current),
      )
      | inr stale ↦ inr (inl (ground (arith, found, stale), ground (arith, found, stale, nonzero)))
    ]
  ]
