-- ===== src/Butex.antt =====
-- dbrpc/butex.cpp: futex-like waiting and waking for bthreads and pthreads.
pub mod State
pub mod Wake
pub mod Wait
pub mod Pthread
pub mod Frame
pub mod Linked
pub mod Except
pub mod Woken
pub mod Collect
pub mod Order
pub mod OrderExcept
pub mod Requeue
pub mod Erase
pub mod Suspend
pub mod LostWakeup
pub mod Detach
pub mod Steps
pub mod Spec
pub mod Moved
pub mod Refines
pub mod OneByOne
pub mod Callers
