-- ===== src/Lead.antt =====
-- crates/agentmosaic-team/src/lead.rs: the loop of the Lead. `Data` has its decisions, contexts
-- and errors, `Tree` the walks along `parent_task`, `Context` what a round shows to the brain,
-- `Final` how an answer is checked and stored, `Loop` the rounds. `Frame`, `Budget` and `Rounds` follow
-- the Lead's fields through a run, `Verify`, `Answered` and `Answer` its answer, `Descendants` its tree of tasks.
pub mod Data
pub mod Tree
pub mod Context
pub mod Final
pub mod Loop
pub mod Frame
pub mod Budget
pub mod Rounds
pub mod Verify
pub mod Answered
pub mod Answer
pub mod Descendants
