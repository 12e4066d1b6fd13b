-- ===== src/Registry.antt =====
-- crates/agentmosaic-team/src/registry.rs: the agents of a team, and which agent a task goes to.
-- `AgentTier`, `TaskKind` and `DriverKind` are its enumerations; `Agents` has the registry.
pub mod AgentTier
pub mod TaskKind
pub mod DriverKind
pub mod Agents
