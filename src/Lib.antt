-- ===== src/Lib.antt =====
-- compuguessr: a quiz server in C without a C library, that speaks FastCGI over io_uring and keeps
-- its users and sessions in files that are mapped into memory.
--
-- The parts, the code that they are about, and how they work together:
-- Util            util/cg_util.c and cg_util.h: division by multiplication (Util/Division), the two
--                 hashes (Util/Hash), comparison of memory and strings (Util/Memory),
--                 decimal digits (Util/Digits), the environment (Util/Environment), copies and
--                 fills (Util/Copy), with their assembly in arch/x86_64/cg_util.asm.
-- Hashmap         data/cg_hashmap.c: a table with linear probing and tombstones. `get_key_uint`,
--                 `insert_key_uint` and `delete_key_uint` are the functions of those names;
--                 Hashmap/Probe is the ring of slots, the other children are one operation each.
-- SessionDb       data/cg_sessiondb.c: the pool of sessions and the hashmap from ids to places in
--                 it; it uses Hashmap through what its theorems say of keys and values.
-- UserDb          data/cg_userdb.c: the pool of accounts.
-- Challenges      data/cg_challengedb.c: the binary search of the table of challenges.
-- Clients         core/cg_client.c: the pool of clients.
-- Request         `struct cg_client_req` of include/core/cg_client.h, which the parser fills.
-- Fastcgi         core/cg_fastcgi.c: records (Fastcgi/Record), parameters (Fastcgi/Params), the
--                 loop over the receive buffer (Fastcgi/Parse), replies (Fastcgi/Write).
-- Router          services/cg_router.c: JSON and numbers (Router/Text), forms (Router/Form), the
--                 handlers (Router/Profile, Router/Account, Router/Board, Router/Verify) and the
--                 map of routes (Router/Routes); Router/Safe is about what every handler
--                 keeps, and about the requests that make it stay inside its buffers; Account/Cookie
--                 and Account/Remembered follow a session id to the browser and back.
-- Uring           core/cg_uring.c: the rings as queues (Uring/Queue) and their setup (Uring/Setup).
-- Time            platform/cg_time.c, against the Gregorian calendar (Time/Calendar).
-- Log, Env        platform/cg_log.c and platform/cg_env.c; Env/Vdso is the search of the vDSO.
-- App             app/cg_app.c: the start (App/Start), the listener (App/Accepting), the clients
--                 (App/Peer), the loop (App/Loop) and `main` as a whole (App/Program). A client
--                 asks the kernel through the rings, its bytes go through Fastcgi to Router, which
--                 works on SessionDb and UserDb.
-- Base            what the parts share: arrays, words, integers, C strings, searches, outcomes.
-- Tests           runs at concrete inputs.
-- The C files stand under src/ of the repository, the headers under include/.
--
-- Memory is lists of numbers below 256, a pointer into a pool is an index, and 32-bit sums keep
-- their wrap-around (`u32`). `Run` is the outcome of code that could leave an array or loop for
-- ever: `fail out_of_bounds` is a read or a copy outside, `fail no_fuel` a loop that was given too few
-- rounds. A lookup is given one round for each slot, which is enough on every valid map; the loop
-- over records is given two rounds more than there are bytes, and each round but the first takes a
-- header off them; the binary search one more than there are challenges, and each round narrows its
-- range; the loop over parameters is given one round more than the payload has bytes, and what is
-- left without a result there is reported as `fail endless`.
--
-- The loop over a form is given one round more than it has bytes, and each round takes one; the
-- inner loop over completions takes one round for each moment that it is given.
--
-- The address of a receive buffer is a part of its record, since the alignment decides how
-- `cg_memcpy_avx2` copies; a client of the pool stands at a multiple of 32 and its `rx_buf` 48 bytes
-- behind, as the ABI lays the structures out. Every other copy has operands that lie apart, and is
-- a write of the block. The program is the start and any number of rounds of its loop; a round is
-- given the bytes that the kernel has received for the clients by the end of its wait (`feed` of
-- App/Loop puts them where the reads have asked for them), the ring that the wait leaves, and a
-- moment for each completion.
--
-- System calls, the clock, random numbers, the image of the vDSO and the two CRC instructions are
-- parameters or come in as their results; what the kernel writes into shared memory is a step of
-- its own. Not modelled: the generated table of challenges, and the assembly routines that find
-- string lengths and write numbers, which are used with their documented effect; the loop of
-- `cg_utoa`, in arch/x86_64/cg_util.asm, is written out in Router/Text. The wrappers of
-- include/arch/cg_syscall.h are one instruction each.
pub mod Base
pub mod Util
pub mod Hashmap
pub mod SessionDb
pub mod UserDb
pub mod Challenges
pub mod Request
pub mod Fastcgi
pub mod Clients
pub mod Router
pub mod Uring
pub mod Log
pub mod Time
pub mod Env
pub mod App
mod Tests
