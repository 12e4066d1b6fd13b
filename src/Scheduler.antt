-- ===== src/Scheduler.antt =====
-- crates/agentmosaic-team/src/scheduler.rs: `Order` has the order of candidate agents, `Run` the
-- life of one task, `Schedule` the batches. `Routing` and `Candidates` are about the order; `History`,
-- `Attempts`, `Extends`, `Walk` and `Promise` follow `run_one` from one attempt to its end.
pub mod Order
pub mod Routing
pub mod Candidates
pub mod Run
pub mod Schedule
pub mod History
pub mod Attempts
pub mod Extends
pub mod Walk
pub mod Shares
pub mod Promise
