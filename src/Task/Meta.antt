-- ===== src/Task/Meta.antt =====
-- dbrpc/task_group.cpp and dbrpc/task_group_inl.h: `TaskMeta`, identifiers of bthreads, and the
-- functions that look a bthread up.
--
-- `TaskMeta` is declared outside the repository; the record has the fields that the repository reads
-- and writes. What the functions need of `make_tid` and `get_slot` is an interface, which those of
-- dbrpc/task_group_inl.h fill in Task.Tid. A bthread_t is a 64-bit number, `version_butex` is the 32-bit
-- version that its pointer leads to.
use brpc_source_code_analysi.Prelude.{
  ℕ, ◌/◌, ◌%◌, ◌^◌, ◌≡◌, ◌<◌, ◌==◌, if◌then◌else◌, Bool, true, false, Option, none, some, update,
}

pub record Attr : Type 0 where
  pub stack_type : ℕ
  pub flags : ℕ

pub record TaskMeta : Type 0 where
  pub version_butex : ℕ
  pub tid : ℕ
  pub stop : Bool
  pub interrupted : Bool
  pub about_to_quit : Bool
  pub fn : ℕ
  pub arg : ℕ
  pub attr : Attr
  pub current_waiter : Option ℕ
  pub current_sleep : ℕ
  pub cpuwide_start_ns : ℕ
  pub cputime_ns : ℕ
  pub nswitch : ℕ

-- Identifiers have the version in the upper half and the slot of the pool in the lower.
pub record TidCodec : Type 0 where
  pub make_tid : (version slot : ℕ) → ℕ
  pub get_slot : (tid : ℕ) → ℕ
  pub version-make_tid : (v s : ℕ) → v < 2 ^ 32 → s < 2 ^ 32 → make_tid v s / 2 ^ 32 % 2 ^ 32 ≡ v
  pub slot-make_tid : (v s : ℕ) → v < 2 ^ 32 → s < 2 ^ 32 → get_slot (make_tid v s) ≡ s

-- `(uint32_t)((tid >> 32) & 0xFFFFFFFFul)`
unfoldable pub get_version : ℕ → ℕ
get_version tid = tid / 2 ^ 32 % 2 ^ 32

-- The pool never frees memory: a slot that was handed out once always leads to its `TaskMeta`.
abbrev pub Pool : Type 0
Pool = ℕ → Option TaskMeta

abbrev pub set_meta : ℕ → TaskMeta → Pool → Pool
set_meta slot m p = update p slot (some m)

module _ (C : TidCodec) where
  open C use {make_tid, get_slot}

  unfoldable pub address_meta : Pool → ℕ → Option TaskMeta
  address_meta p tid = p (get_slot tid)

  -- The test under `version_lock`, that the identifier is the current one.
  abbrev pub is_current : TaskMeta → ℕ → Bool
  is_current m tid = get_version tid == m.version_butex

  unfoldable pub set_stopped : ℕ → Pool → Pool
  set_stopped tid p = elim (address_meta p tid) [
    | none ↦ p
    | some m ↦ if is_current m tid then set_meta (get_slot tid) (record m { stop = true }) p else p
  ]

  unfoldable pub is_stopped : ℕ → Pool → Bool
  is_stopped tid p = elim (address_meta p tid) [
    | none ↦ true
    | some m ↦ if is_current m tid then m.stop else true
  ]

  unfoldable pub exists : ℕ → Pool → Bool
  exists tid p =
      if tid == 0
      then false
      else elim (address_meta p tid) [ none ↦ false | some m ↦ m.version_butex == get_version tid ]
