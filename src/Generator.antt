-- ===== src/Generator.antt =====
-- The generators of object contents (src/sibench/generator.go and the files of the generators).
pub mod Bytes
pub mod Prng
pub mod Slices
