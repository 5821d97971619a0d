-- ===== src/Worker.antt =====
-- dbrpc/task_control.cpp and dbrpc/task_group.cpp: the life of a worker and of its group, and the
-- loop in which it waits for tasks.
pub mod Construct
pub mod Create
pub mod Ledger
pub mod Created
pub mod Life
pub mod Lot
pub mod Wait
pub mod Asleep
pub mod Main
pub mod Stop
pub mod Destroy
pub mod Stopped
pub mod MainLoop
