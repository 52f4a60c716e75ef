-- ===== src/Foreman.antt =====
-- A foreman (src/sibench/foreman.go): the server on each driver node.
pub mod States
pub mod Machine
pub mod Connect
pub mod Handlers
pub mod Invariant
pub mod Steps
pub mod Orders
pub mod Idle
pub mod Ranges
pub mod Stats
pub mod Rendezvous
