-- ===== src/Board.antt =====
-- crates/agentmosaic-team/src/board.rs: `Data` has the rows and errors of the task board,
-- `TaskStatus` the life of a task, `Trait` the trait `TaskBoard` with its default methods.
pub mod TaskStatus
pub mod Data
pub mod Trait
