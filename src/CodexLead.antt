-- ===== src/CodexLead.antt =====
-- The Lead's brain on a resident Codex thread: crates/agentmosaic-runtime/src/codex_lead.rs.
pub mod Config
pub mod Wire
pub mod Prompt
pub mod Budget
pub mod Parse
pub mod Contract
pub mod Repeats
pub mod Parts
pub mod Accepts
pub mod Interface
pub mod Server
pub mod Pump
pub mod Turns
pub mod Resident
