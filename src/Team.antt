-- ===== src/Team.antt =====
-- crates/agentmosaic-runtime/src/team_runner.rs, as far as it judges the rows of the agent registry:
-- `Errors` has the errors of a run and their texts, `Records` the registry that a run is made from and
-- the choice of its Lead. `Options` and `Limits` have the options of an agent of driver_factory.rs and the
-- rules on them. `Chosen`, `Judged`, `Clean`, `Inside` and `Fit` say what all these accept.
pub mod Errors
pub mod Records
pub mod Chosen
pub mod Judged
pub mod Options
pub mod Limits
pub mod Clean
pub mod Inside
pub mod Fit
