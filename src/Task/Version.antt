-- ===== src/Task/Version.antt =====
-- dbrpc/task_group.cpp: the versions that the ends of runs give to a slot.
use brpc_source_code_analysi.Prelude.{ℕ, zero, suc, ◌+◌, ◌-◌, ◌%◌, ◌^◌, ◌≡◌, ◌≢◌, ◌<◌, arith}
use brpc_source_code_analysi.Task.Life.{next_version}

-- The version after `k` runs.
abbrev pub after_runs : ℕ → ℕ → ℕ
after_runs zero v = v
after_runs (suc k) v = next_version (after_runs k v)

-- The version grows by one modulo 2 ^ 32 - 1, and 0 is skipped.
pub next_version_eq : (v : ℕ) → v < 2 ^ 32 → next_version v ≡ v % (2 ^ 32 - 1) + 1
unfolding next_version
next_version_eq v lt = ground arith

next_version_bound : (v : ℕ) → v < 2 ^ 32 → next_version v < 2 ^ 32
unfolding next_version
next_version_bound v lt = ground arith

after_runs_eq : (k v : ℕ) → 0 < v → v < 2 ^ 32 → after_runs k v ≡ (v - 1 + k) % (2 ^ 32 - 1) + 1
after_runs_eq zero v pos lt = omega (arith, pos, lt)
after_runs_eq (suc k) v pos lt =
    let ih = after_runs_eq k v pos lt in
    let below : after_runs k v < 2 ^ 32 = omega (arith, ih) in
    omega (arith, ih, next_version_eq (after_runs k v) below)

-- A version that is not 0 and fits into 32 bits comes back only after a multiple of 2 ^ 32 - 1 runs
-- of its slot: after fewer runs the slot has another version, and never the version 0.
pub after_runs_fresh :
    (k v : ℕ)
    → 0 < v
    → v < 2 ^ 32
    → (0 < after_runs k v)
      × (after_runs k v < 2 ^ 32)
      × (0 < k → k < 2 ^ 32 - 1 → after_runs k v ≢ v)
after_runs_fresh k v pos lt =
    let e = after_runs_eq k v pos lt in
    (
      omega (arith, e),
      omega (arith, e),
      λ some_runs few same_version. omega (arith, e, pos, lt, some_runs, few, same_version),
    )

pub next_version-new : (v : ℕ) → v < 2 ^ 32 → next_version v ≢ v
next_version-new v lt e = omega (arith, lt, e, next_version_eq v lt)
