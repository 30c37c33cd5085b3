-- ===== src/Util.antt =====
-- src/util/cg_util.c and include/util/cg_util.h: strings, memory, hashes and division.
pub mod Division
pub mod Copy
pub mod Digits
pub mod Environment
pub mod Hash
pub mod Memory
