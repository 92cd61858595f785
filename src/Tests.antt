-- ===== src/Tests.antt =====
-- The theorems at concrete inputs.
mod Stms
mod Schedules
mod Failures
mod Machines
mod Journals
mod Breakers
mod Queues
mod Graphs
mod Documents
mod EventStores
mod Scopes
mod Parsers
mod Tokens
