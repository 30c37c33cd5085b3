-- ===== src/Fastcgi.antt =====
-- src/core/cg_fastcgi.c: the records of the protocol, their parser, and the records that are sent.
pub mod Record
pub mod Params
pub mod Parse
pub mod Write
