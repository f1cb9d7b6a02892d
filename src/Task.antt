-- ===== src/Task.antt =====
-- The processes of include/task.h.
pub mod State
pub mod Table
pub mod Switch
pub mod Life
pub mod Invariant
pub mod Pick
pub mod Context
pub mod Timer
pub mod Fork
pub mod Preserve
pub mod LifeValid
pub mod Wake
pub mod Fair
pub mod Turns
