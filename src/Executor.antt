-- ===== src/Executor.antt =====
-- include/mw/node.hpp, include/mw/executor.hpp and src/executor.cpp: the executor.
-- `State` and `Calls` are the code; the other modules prove what it does.
mod Runs
pub mod State
pub mod Calls
pub mod Schedule
pub mod Firsts
pub mod Sync
pub mod Phases
pub mod Lifecycle
