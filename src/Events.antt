-- ===== src/Events.antt =====
-- What the system reports of itself: `Text` bounds every text that it carries, `RunEvent` is the
-- projection of crates/agentmosaic-team/src/run_event.rs.
pub mod Text
pub mod RunEvent
pub mod RuntimeEvent
pub mod Bounded
pub mod Within
pub mod Unchanged
pub mod Shrink
pub mod Dropped
pub mod Ceiling
