-- ===== src/Lib.antt =====
-- A model of the core of effect-rs, an effect library for Rust: structured failures, schedules with
-- the retry and repeat loops, software transactional memory, finite-state machines with sagas and
-- durable stepping, the step journal, the sliding queue, the circuit breaker, resource scopes, cancellation,
-- dependency graphs, event stores, document paths with JSON Patch, the trie zipper, and parsers and
-- pretty documents.
--
-- The parts and how they interact:
-- * `Failure` is the vocabulary of outcomes: `Cause`, `Exit` and `Or` of
--   crates/id_effect/src/failure/{cause,exit,union}.rs, and the ordered matcher of
--   crates/id_effect/src/match_.rs, by which `Exit::into_result` is written. The `Or` type is the
--   error channel of the circuit breaker.
-- * `Schedule` is crates/id_effect/src/scheduling/schedule.rs. `Policy` has `Schedule`, its
--   constructors, `map`, `contramap` and `next`, with `order::max` and `order::clamp` of
--   crates/id_effect/src/schema/order.rs; `Loops` has `retry_with_clock`, `repeat_with_clock`, their
--   interruptible variants and `repeat_n`. `Delays` describes a schedule by the list of the delays it
--   gives, which the loops are compared with.
-- * `Stm` is crates/id_effect/src/stm/mod.rs. `Heap` has the cells (`Inner`) and the other threads,
--   `Txn` the log and `try_commit`, `Program` the combinators of `Stm`, `Cell` the operations of
--   `TRef`, `Commit` the loop of `commit`, `Structures` the queue, the map and the semaphore. The
--   other files hold the proofs: `Later`, `Replays` and `CellReplays` about a run of a program on a
--   log that is repeated on another heap, `Serial`, `Alone`, `Built` and `Progress` about a commit,
--   `Linear` with the sequential specifications of the structures, and a file for each structure.
-- * `Fsm` is crates/id_effect_fsm/src: `Machine` is machine.rs, `Interpreter` is interpreter.rs,
--   `Saga` is saga.rs, with the errors of error.rs. `Walks` and `Rollback` give the descriptions
--   that the loops are compared with.
-- * `Workflow` is crates/id_effect_workflow/src/journal.rs: `Journal` has the trait `StepJournal` as
--   a record of operations, and `NetworkJournalStub`; `Contract` states what a journal promises,
--   and `Stub` compares the in-memory journal with it. `Fsm.Durable` is crates/id_effect_fsm/src/workflow.rs,
--   which is generic in the journal: it takes the operations, and `Fsm.Restores` their laws.
-- * `Coordination` is the sliding queue of crates/id_effect/src/coordination/queue.rs, with the
--   operations of `Queue` on it, those that receive a number or a range of values in `Batches`;
--   `Offers`, `Takes` and `Ranges` are about what it keeps and what it gives.
-- * `Resilience` is crates/id_effect_resilience/src/circuit_breaker.rs. A call is a gate, the
--   protected effect and a settlement; as other callers run during the effect, histories of a
--   breaker are lists of these events. A gate and a settlement are one step each, although the code
--   reads and writes its references one after another.
-- * `Concurrency` is crates/id_effect/src/concurrency/cancel.rs: `Cancel` has the store of tokens and
--   the operations, `Propagation` and `Reached` are about a cancellation.
-- * `Resources` is crates/id_effect/src/resource/scope.rs. `Scopes` has the store of scopes, which
--   name one another, and the operations; `Store` counts what a store holds, `Closing` and
--   `Sweeps` say what a close does to each scope, `Children` is about the loop over the children,
--   `Families` about the scopes below one, `Finishing` about one scope, and `Lifecycle` about a whole
--   close.
-- * `Graph` is crates/id_effect_graph/src: `Dag` is dag.rs with the errors of error.rs, on the sets
--   and maps of `Names`, and `Planner` is topological_sort.rs. `Counting`, `Links`, `Positions` and
--   `Loop` are about the parts of the sort, `Order` and `Edits` about its answers, and
--   `Requirements`, `PlanSteps` and `Plans` about the planner's.
-- * `Events` is crates/id_effect_events/src/event_store.rs: `Stored` has what the two stores share,
--   `Memory` and `File` are the stores, and `Refines` compares the second with the first.
-- * `Optics` is crates/id_effect_optics/src: `Paths` is path.rs, `Documents` is schema_bridge.rs with
--   the type `Unknown` of crates/id_effect/src/schema/parse.rs, `Patches` is json_patch.rs, and
--   `Zipper` is zipper.rs; `Access` and `Writes` are about reads after writes, `PatchLaws` and
--   `Removals` about the operations of a patch, and `ZipperLaws` about moves of the zipper.
-- * `Parsing` is crates/id_effect_parse/src: `Parser` and `Literals` are parser.rs, and `Pretty` is
--   pretty.rs; `Loops`, `Numbers` and `Layouts` are about them.
--
-- How code becomes definitions: a method that changes its receiver returns the new value, and a
-- panic or `unreachable!` is `none`. What an effect, a clock, a metric or a compensation does is a
-- function on a world, a parameter everywhere. A hash map is an association list or a function of
-- its keys; its iteration order is not used. Functions have the names of the code; the arms of a
-- match that need a name of their own have one.
--
-- Texts are lists of character codes where the code walks through them; ids, stream names, capability
-- names and the cells of finalizers are only compared, and are numbers. A map of the standard library
-- with an order is an ascending association list.
--
-- Bounds and fuel: u64 and u32 keep their saturation or their remainder written out; a sum that
-- overflows wraps, as in a release build. A duration is its number of nanoseconds and an instant is
-- one too. `commit`, the retry loops and the repeat loops need not end, and take fuel; `none` says
-- that the fuel ran out. The results about them name the fuel that is enough, or give a number of
-- rounds after which the loop has ended: for `commit` it is the number of batches of writes that
-- other threads have still to make, for the loops the length of the list of delays, for the batch
-- receives of a queue the number of its values. The sort of a graph takes as much fuel as there are
-- nodes, the close of a scope more than there are open scopes, a cancellation
-- more than there are tokens that are not cancelled, and the repeating parsers more than the
-- size of the input. `is_closed` follows the parents of a scope without a bound, and takes fuel.
--
-- In `Stm` the other threads are a list of batches of cell writes, one batch before each access of
-- this thread to shared memory, in any order and of any length; a batch need not be a whole commit.
-- A version is a u64 and wraps, so results about commits ask that the number of writes to come is
-- below 2 ^ 64. All cells of a heap hold values of one type: the downcast of `dyn Any` is not
-- modelled, nor is the allocation of a cell by `TRef::make` and by the constructors of the
-- structures.
--
-- In `Resources` and `Concurrency` an operation runs to its end before the next one begins; a finalizer's run is an entry
-- of a trace, and finalizers do not use the scopes. Whether a scope or a token is still kept by a handle is a
-- part of its record, since the children are weak pointers.
--
-- In `Graph` a panic of the sort, on a missing key or a subtraction below zero, is `none`. In `Optics`
-- the writes walk the segments of a path from the last one, as the code does, and the texts of the
-- messages are data.
--
-- In `Events` the format of a line and the drawing of ids are parameters, and results about the file
-- ask that a record reads back from its line. Failures of the file system are not modelled; a record
-- that cannot be written leaves the lines before it in the file. A version is a u64.
--
-- In `Workflow` the JSON text, its encoder and its decoder are parameters; results that need it ask
-- that decoding undoes encoding. A count of steps is a u32, so results ask for fewer than 2 ^ 32.
--
-- Not modelled: the async kernel and its executors, which the worlds stand for; the printers of causes and exits;
-- `retry`, `repeat` and `forever`, which are these loops on the live clock or without an end; the
-- SQLite and Postgres journals; the flume-backed queues; the remaining parts of the
-- library (other coordination, pools and caches, streaming, configuration, lenses, the planner of
-- capabilities, the JSON parser) and its adapters to third-party libraries.
mod Prelude
pub mod Failure
pub mod Concurrency
pub mod Events
pub mod Graph
pub mod Optics
pub mod Schedule
pub mod Stm
pub mod Fsm
pub mod Workflow
pub mod Coordination
pub mod Parsing
pub mod Resilience
pub mod Resources
mod Tests
