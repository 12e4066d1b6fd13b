-- ===== src/Lib.antt =====
-- A verification library for the core of AgentMosaic: the agent registry and its routing, the
-- durable task board on SQLite, the scheduler of a team, the Lead's loop of rounds, the Lead's brain on
-- a resident Codex thread, the events of external runtimes, and the registered agents of a run.
--
-- A run works like this. Its registry and its Lead come from the stored rows of the agents
-- (crates/agentmosaic-storage/src/registry_store.rs, crates/agentmosaic-runtime/src/team_runner.rs), whose
-- options driver_factory.rs reads. The Lead (crates/agentmosaic-team/src/lead.rs) creates a root task on the
-- board and asks its brain, round by round, for a decision. Tasks that the brain delegates go to
-- the scheduler (scheduler.rs), which creates them on the board and gives each to the candidate
-- agents that the registry (registry.rs) allows, with retries. Every attempt, message, artifact and
-- result is written to the board (the trait in board.rs, its SQLite implementation in
-- crates/agentmosaic-storage/src/board.rs over the tables of schema.rs), and the
-- steps of a task are reported to an event sink (run_event.rs) after they were written. The Lead reads its next context
-- from the board, and its final answer is verified against the board before it is stored there.
--
-- Files and code:
--   Registry/AgentTier, TaskKind, DriverKind, Agents   crates/agentmosaic-team/src/registry.rs
--   Board/TaskStatus, Data, Trait                      crates/agentmosaic-team/src/board.rs
--   Storage/Database                                   crates/agentmosaic-storage/src/schema.rs
--   Storage/Rows, Writes, Results, Reads, Recovery, Refs, Runs, Sqlite, Bindings, StoredEvent, Journal
--                                                      crates/agentmosaic-storage/src/board.rs
--   Storage/Agents                                     crates/agentmosaic-storage/src/registry_store.rs
--   Events/Text, RunEvent                              crates/agentmosaic-team/src/run_event.rs
--   Events/RuntimeEvent, Bounded, and `truncate` in Text
--                                                      crates/agentmosaic-team/src/runtime_event.rs
--   Scheduler/Order, Run, Schedule                     crates/agentmosaic-team/src/scheduler.rs
--   Lead/Data, Tree, Context, Final, Loop              crates/agentmosaic-team/src/lead.rs
--   CodexLead/Config, Wire, Parse, Prompt, Interface, Server
--                                                      crates/agentmosaic-runtime/src/codex_lead.rs
--   Team/Records, Errors                               crates/agentmosaic-runtime/src/team_runner.rs
--   Team/Options, Limits                               crates/agentmosaic-runtime/src/driver_factory.rs
-- The other files of these folders prove what the definitions do, `Common` has what they share, and
-- `Samples` applies the theorems to concrete inputs. A definition has the name of the function, type
-- or statement that it translates; a loop or a block of a long function is a definition of its own.
--
-- How the code is modelled:
--   A method that changes an object and may fail is a function from the object's state to a result
--   and the state as far as it came (`Exec` in Common/Outcome), so that an early return keeps what
--   was done before it. A `TaskBoard` is a record of such methods over any type of boards.
--   SQLite is not part of the repository. A connection is its tables and the number of statements
--   it has executed; `Engine` says which statements fail, whether foreign keys are enforced, and the
--   texts of SQLite's own errors. A statement that fails changes nothing, and a transaction that is
--   not committed leaves the tables as they were: this is what SQLite documents.
--   A driver is a function of the task and the board, since other tasks may write to the board while
--   it runs; `Team.waiting` is what they do while a task waits for a permit. At the
--   other points of `run_one`, between two locks of the board, other tasks do nothing in the model. A
--   batch runs its tasks in the order in which they were spawned.
--   The brain of the Lead is a function of the context, of a state of its own, and of the board.
--   A path is the text it is displayed as, and `Debug` of a text is a parameter.
--   JSON is read and written by a library: a reader is a function from a text to a decision object or
--   an error, a printer a function from a payload to a text, and the size of an event's JSON text is
--   a function of the event. The Codex app server is an interface of methods over the processes
--   behind it. Trimming is modelled on the code points of Unicode's White_Space.
--   Ids are natural numbers; the attempt number of a run wraps at 2 ^ 32, as u32 does in a release. A
--   usize has 64 bits. SQLite takes a u64 as an i64, which keeps equality; where a query compares with
--   `>`, in `runtime_events`, the conversion is modelled (`as_i64`).
--
-- Bounds: the Lead's rounds recur on the rounds that are left, and the retries and the walk over the
-- candidates on their lists, so none of them needs fuel. The walks along parents stop after 1024
-- hops, as the code does. Event texts keep 512 bytes. `decimal` prints a number of up to 20 digits,
-- which is enough for u64. The loop that drops items of
-- an event that is too large has a round of fuel for each item, and ends by itself. The event pump
-- recurs on `max_events`, as the code counts.
--
-- Not modelled: the permits themselves (a semaphore only delays), the worker runtimes, the Lead on `codex exec`
-- and their processes, the start and the resumption of a run (team_runner.rs), the construction of drivers (driver_factory.rs), schema migration, the command line, the terminal interface and the website.
pub mod Common
pub mod Registry
pub mod Board
pub mod Storage
pub mod Events
pub mod Scheduler
pub mod Lead
pub mod CodexLead
pub mod Team
pub mod Samples
