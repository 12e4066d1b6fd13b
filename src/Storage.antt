-- ===== src/Storage.antt =====
-- crates/agentmosaic-storage/src/board.rs and the tables of schema.rs: the SQLite task board.
-- `Database` has the tables, the engine that executes statements, and transactions; `Rows` the
-- reading of rows; `Writes`, `Results`, `Reads`, `Recovery` and `Refs` the methods of the trait, which
-- `Sqlite` puts together as a `TaskBoard`; `Runs` the board's own methods. `Atomic` is about failures;
-- `Commit`, `Recovered`, `Selection` and `Selected` about what is written and read; `Durable` about a
-- whole `run_one` on this board. `Agents` models registry_store.rs on the same engine.
pub mod Database
pub mod Rows
pub mod Writes
pub mod Results
pub mod Reads
pub mod Recovery
pub mod Refs
pub mod Runs
pub mod Bindings
pub mod Upsert
pub mod Bound
pub mod Collaborations
pub mod StoredEvent
pub mod Journal
pub mod Numbered
pub mod Appended
pub mod Logged
pub mod Reread
pub mod Agents
pub mod Registered
pub mod Sqlite
pub mod Atomic
pub mod Recovered
pub mod Commit
pub mod Durable
pub mod Selection
pub mod Selected
