-- ===== src/Comms.antt =====
-- The message transport (src/comms).
pub mod Framer
pub mod Encoder
pub mod Connection
pub mod Orders
