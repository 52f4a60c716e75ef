-- ===== src/Connections.antt =====
-- The connections to storage systems (src/sibench/connection.go and the files of the connections).
pub mod Block
pub mod Rbd
pub mod Cephfs
pub mod Files
pub mod S3
