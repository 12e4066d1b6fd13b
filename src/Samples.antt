-- ===== src/Samples.antt =====
-- Concrete inputs at which the theorems of the library hold: a small team, a board with a few
-- rows, and the theorems applied to them.
mod Fixture
mod Teams
mod Boards
mod Runs
mod Texts
mod Events
mod Codex
mod Log
mod Agents
