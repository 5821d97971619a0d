-- ===== src/Api.antt =====
-- dbrpc/bthread.cpp: the functions that programs call.
pub mod Concurrency
pub mod Resize
pub mod Control
pub mod Bound
pub mod Dispatch
pub mod Batch
pub mod Threads
pub mod Lists
pub mod ListJoin
