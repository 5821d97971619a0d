-- ===== src/Task/Attr.antt =====
-- dbrpc/task_group.cpp: `get_attr`.
--
-- `version_lock` is the word that the lock of the meta in a slot leads to. The function compares the
-- version of the identifier with it.
use brpc_source_code_analysi.Prelude.{
  ℕ, ◌≡◌, ◌≢◌, ◌==◌, if◌then◌else◌, true, Option, none, some, arith,
}
use brpc_source_code_analysi.Task.Meta.{Attr, TidCodec, Pool, address_meta, get_version, exists}
use brpc_source_code_analysi.Task.Identity.{IsRunning, IsRunning-until_end}

module _ (C : TidCodec) where
  open C use {get_slot}

  -- `none` stands for EINVAL.
  unfoldable pub get_attr : (version_lock : ℕ → ℕ) → ℕ → Pool → Option Attr
  get_attr version_lock tid p = elim (address_meta C p tid) [
    | none ↦ none
    | some m ↦ if get_version tid == version_lock (get_slot tid) then some m.attr else none
  ]

  -- `get_attr` goes by the word of the lock, not by the version: while that word differs from the
  -- version of a running bthread, the bthread exists, and `get_attr` of it answers EINVAL.
  pub get_attr-running :
      (version_lock : ℕ → ℕ) (tid : ℕ) (p : Pool)
      → IsRunning C tid p
      → version_lock (get_slot tid) ≢ get_version tid
      → (exists C tid p ≡ true) × (get_attr version_lock tid p ≡ none)
  unfolding get_attr address_meta
  get_attr-running version_lock tid p running differs =
      let (m, found, current, positive) = running in
      let (there, stopped, still, over) = IsRunning-until_end C tid p running in
      (there, ground (arith, found, differs))
