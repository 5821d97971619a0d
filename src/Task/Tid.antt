-- ===== src/Task/Tid.antt =====
-- dbrpc/task_group_inl.h: `make_tid`, `get_slot` and `get_version`.
--
-- Identifiers are 64-bit and versions 32-bit numbers. `|` is written bit by bit.
use brpc_source_code_analysi.Prelude.{
  ℕ, zero, suc, ◌≡◌, ap, ◌∙◌, ◌+◌, ◌*◌, ◌/◌, ◌%◌, ◌^◌, ◌<◌, ◌==◌, ◌||◌, if◌then◌else◌, arith,
}
use brpc_source_code_analysi.Task.Meta.{TidCodec, get_version}

-- The lowest `bits` bits of `x | y`.
abbrev pub bit_or : (bits x y : ℕ) → ℕ
bit_or zero x y = 0
bit_or (suc bits) x y =
    (if x % 2 == 1 || y % 2 == 1 then 1 else 0) + 2 * bit_or bits (x / 2) (y / 2)

-- `((bthread_t)version) << 32 | (bthread_t)slot.value`
unfoldable pub make_tid : (version slot : ℕ) → ℕ
make_tid version slot = bit_or 64 (version * 2 ^ 32 % 2 ^ 64) slot

-- `tid & 0xFFFFFFFFul`
abbrev pub get_slot : (tid : ℕ) → ℕ
get_slot tid = tid % 2 ^ 32

abbrev doubled : ℕ → ℕ → ℕ
doubled zero a = a
doubled (suc k) a = 2 * doubled k a

bit_or-zero : (bits a : ℕ) → a < doubled bits 1 → bit_or bits a 0 ≡ a
bit_or-zero zero a lt = omega (arith, lt)
bit_or-zero (suc bits) a lt = ground (arith, bit_or-zero bits (a / 2) (omega (arith, lt)))

abbrev deeper : ℕ → ℕ → ℕ
deeper zero bits = bits
deeper (suc k) bits = suc (deeper k bits)

-- The bits of the two numbers do not overlap.
bit_or-doubled :
    (k bits a b : ℕ)
    → a < doubled bits 1
    → b < doubled k 1
    → bit_or (deeper k bits) (doubled k a) b ≡ doubled k a + b
bit_or-doubled zero bits a b small below =
    let none_set : b ≡ 0 = omega (arith, below) in
    rw none_set (bit_or-zero bits a small ∙ omega arith)
bit_or-doubled (suc k) bits a b small below =
    let halves : (2 * doubled k a) / 2 ≡ doubled k a = omega arith in
    let even : (2 * doubled k a) % 2 ≡ 0 = omega arith in
    let ih = bit_or-doubled k bits a (b / 2) small (omega (arith, below)) in
    ground (arith, halves, even, ih)

-- A version and a slot that fit into 32 bits stand in the two halves of their identifier.
pub make_tid_eq : (v s : ℕ) → v < 2 ^ 32 → s < 2 ^ 32 → make_tid v s ≡ v * 2 ^ 32 + s
unfolding make_tid
make_tid_eq v s small below =
    let shifted : v * 2 ^ 32 % 2 ^ 64 ≡ doubled 32 v = omega (arith, small) in
    ap (λ (x : ℕ). bit_or 64 x s) shifted ∙ bit_or-doubled 32 32 v s small below ∙ omega arith

version-make_tid : (v s : ℕ) → v < 2 ^ 32 → s < 2 ^ 32 → get_version (make_tid v s) ≡ v
unfolding get_version
version-make_tid v s small below = omega (arith, make_tid_eq v s small below, small, below)

pub slot-make_tid : (v s : ℕ) → v < 2 ^ 32 → s < 2 ^ 32 → get_slot (make_tid v s) ≡ s
slot-make_tid v s small below = omega (arith, make_tid_eq v s small below, small, below)

-- An identifier and its version and slot determine each other: both halves of an identifier that was
-- made from a 32-bit version and slot are read back, the identifier fits into 64 bits, and every
-- 64-bit identifier is made from its halves.
pub tid_roundtrip :
    (v s tid : ℕ)
    → v < 2 ^ 32
    → s < 2 ^ 32
    → tid < 2 ^ 64
    → (get_version (make_tid v s) ≡ v)
      × (get_slot (make_tid v s) ≡ s)
      × (make_tid v s < 2 ^ 64)
      × (make_tid (get_version tid) (get_slot tid) ≡ tid)
unfolding get_version
tid_roundtrip v s tid small below fits = (
  version-make_tid v s small below,
  slot-make_tid v s small below,
  omega (arith, make_tid_eq v s small below),
  make_tid_eq (tid / 2 ^ 32 % 2 ^ 32) (tid % 2 ^ 32) (omega arith) (omega arith)
      ∙ omega (arith, fits),
)

pub version-make_tid_law : (v s : ℕ) → v < 2 ^ 32 → s < 2 ^ 32 → make_tid v s / 2 ^ 32 % 2 ^ 32 ≡ v
version-make_tid_law v s small below = omega (arith, make_tid_eq v s small below)

-- The functions of this repository are identifiers as the other modules use them.
abbrev pub tid_codec : TidCodec
tid_codec = record {
  make_tid = make_tid;
  get_slot = get_slot;
  version-make_tid = version-make_tid_law;
  slot-make_tid = slot-make_tid;
}
