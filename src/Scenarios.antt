-- ===== src/Scenarios.antt =====
-- Concrete runs of the theorems, on small inputs.
pub mod Orders
pub mod Foremen
pub mod Statistics
pub mod Workers
pub mod Objects
pub mod Managers
pub mod Slices
pub mod Devices
pub mod Arguments
pub mod Transport
pub mod Deadlocks
pub mod Files
pub mod Commands
