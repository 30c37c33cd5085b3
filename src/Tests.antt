-- ===== src/Tests.antt =====
-- Runs of the definitions at concrete inputs.
mod Maps
mod Users
mod Records
mod Tables
mod Copies
mod Boot
mod Connecting
mod Served
mod Util
mod Texts
mod Platform
mod Server
mod Peers
