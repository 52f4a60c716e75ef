-- ===== src/Misc.antt =====
-- The helpers of src/sibench/misc.go.
pub mod PowerOfTwo
