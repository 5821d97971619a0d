-- ===== src/Worker/Lot.antt =====
-- The parking lot of dbrpc/task_control.h (`_pl`), on which idle workers sleep.
--
-- `ParkingLot` is defined outside the repository and taken as an interface: what the repository calls,
-- and what it relies on. A worker that calls `wait(expected)` sleeps while the state is the expected
-- one; a signal changes the state, a stop marks it.
use brpc_source_code_analysi.Prelude.{
  ℕ, ◌≡◌, ◌+◌, ◌-◌, ◌*◌, ◌%◌, ◌^◌, ◌<◌, ◌==◌, ==_eq, if◌then◌else◌, Bool, true, false, arith,
}

pub record ParkingLot : Type 1 where
  pub State : Type 0
  pub signal : (num_task : ℕ) → State → State
  pub stop : State → State
  pub stopped : State → Bool
  pub equal : State → State → Bool
  pub signal-signal : (a b : ℕ) (s : State) → signal a (signal b s) ≡ signal (a + b) s
  pub stopped-stop : (s : State) → stopped (stop s) ≡ true
  pub stopped-signal : (n : ℕ) (s : State) → stopped (signal n s) ≡ stopped s
  pub equal_eq : (s t : State) → equal s t ≡ true → s ≡ t
  pub signal_differs : (n : ℕ) (s : State) → 0 < n → n < 2 ^ 31 → equal (signal n s) s ≡ false

-- A 32-bit number that counts signals in its upper bits and has the mark in the lowest.
abbrev pub counting_signal : ℕ → ℕ → ℕ
counting_signal n s = if n == 0 then s else (s + 2 * n) % 2 ^ 32

abbrev pub counting_stop : ℕ → ℕ
counting_stop s = s - s % 2 + 1

abbrev pub is_odd : ℕ → Bool
is_odd s = s % 2 == 1

pub counting_signal-twice :
    (a b s : ℕ) → counting_signal a (counting_signal b s) ≡ counting_signal (a + b) s
counting_signal-twice a b s = ground arith

pub is_odd-stop : (s : ℕ) → is_odd (counting_stop s) ≡ true
is_odd-stop s = ground arith

pub is_odd-signal : (n s : ℕ) → is_odd (counting_signal n s) ≡ is_odd s
is_odd-signal n s = ground arith

pub counting_signal-differs : (n s : ℕ) → 0 < n → n < 2 ^ 31 → (counting_signal n s == s) ≡ false
counting_signal-differs n s pos few = ground arith

abbrev pub counting : ParkingLot
counting = record {
  State = ℕ;
  signal = counting_signal;
  stop = counting_stop;
  stopped = is_odd;
  equal = ◌==◌;
  signal-signal = counting_signal-twice;
  stopped-stop = is_odd-stop;
  stopped-signal = is_odd-signal;
  equal_eq = ==_eq;
  signal_differs = counting_signal-differs;
}
