-- ===== src/Worker.antt =====
-- A worker (src/sibench/worker.go): it does the benchmark's operations and times them.
pub mod Prepares
mod Able
pub mod Deletes
pub mod States
pub mod Store
pub mod Bandwidth
pub mod Machine
pub mod Events
pub mod Frame
pub mod Sound
pub mod Opcodes
pub mod Operations
pub mod Ends
pub mod Rounds
