-- ===== src/Proc.antt =====
-- proc.h and proc.c: the process table. Each function below is what runs between an `acquire` and
-- the `release` of `ptable.lock`, or on a slot that only its caller may touch (an EMBRYO).
pub mod Table
pub mod Life
pub mod Wait
pub mod Exit
pub mod Handover
pub mod Birth
pub mod Wakeup
pub mod Scheduler
pub mod Step
pub mod Quiet
pub mod Cases
pub mod Pids
pub mod Copying
pub mod Forking
mod Births
mod Tests
