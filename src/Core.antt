-- ===== src/Core.antt =====
-- state.cpp and state.hpp: the single-threaded control core. One message is one step, and the
-- clock's reading is an argument. The minter and the executor, which the source holds by reference,
-- are fields. Counters and ids do not wrap within the messages of a process.
pub mod State
pub mod Steps
pub mod Handlers
pub mod Draining
pub mod Soundness
pub mod Undelivered
pub mod Invariant
pub mod Reports
pub mod Proposals
pub mod Timing
pub mod Naming
pub mod Repeats
pub mod Dispatching
