-- ===== src/Programs.antt =====
-- apps: the programs beside the recording service. What they print is a value here; their
-- command lines come as arguments, and a program that runs until it is stopped is its loop over any
-- number of rounds.
pub mod Heartbeats
pub mod DumpScans
pub mod SampleData
pub mod QueryServer
pub mod ExecutorDemo
pub mod AcousticDemo
pub mod Broadcast
pub mod Monitor
pub mod Listening
pub mod QueryClient
mod Runs
