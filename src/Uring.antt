-- ===== src/Uring.antt =====
-- src/core/cg_uring.c: the two rings. A pointer into an array is an index. The memory that the
-- kernel shares is a part of the state: it moves `cq.tail` and fills `cqes` between two calls, and
-- what it reads of the submission queue are the entries that `array` names below `tail`.
pub mod Queue
pub mod Setup
use compuguessr.Base.{
  ℕ, zero, suc, ◌+◌, ◌-◌, bit_and, Bool, true, false, Option, none, some, List, get_or, set, ◌==◌,
  if◌then◌else◌,
}
use compuguessr.Base.Int.{ℤ, pos, negsuc}
use compuguessr.Base.Words.{u32, sub_u32}

pub data Opcode : Type 0 where
  nop timeout accept read write close : Opcode

-- `struct io_uring_sqe`, the fields that the program sets. `multishot` stands for `ioprio`, and
-- `nonblock_cloexec` for `accept_flags`, each of which holds one constant or 0.
pub record Sqe : Type 0 where
  pub opcode : Opcode
  pub multishot : Bool
  pub fd : ℤ
  pub off : ℕ
  pub addr : ℕ
  pub len : ℕ
  pub nonblock_cloexec : Bool
  pub user_data : ℕ

abbrev pub zero_sqe : Sqe
zero_sqe = record {
  opcode = nop;
  multishot = false;
  fd = pos 0;
  off = 0;
  addr = 0;
  len = 0;
  nonblock_cloexec = false;
  user_data = 0;
}

-- `more` is the flag `IORING_CQE_F_MORE`.
pub record Cqe : Type 0 where
  pub user_data : ℕ
  pub res : ℤ
  pub more : Bool

abbrev pub zero_cqe : Cqe
zero_cqe = record { user_data = 0; res = pos 0; more = false }

-- `struct cg_uring_ctx`, behind `cg_uring_init`. `asleep` is the flag `IORING_SQ_NEED_WAKEUP`, which
-- the kernel sets.
pub record Ring : Type 0 where
  pub sq_entries : ℕ
  pub sqes : List Sqe
  pub sqe_tail : ℕ
  pub sq_mask : ℕ
  pub asleep : Bool
  pub array : List ℕ
  pub sq_tail : ℕ
  pub cq_head : ℕ
  pub cq_tail : ℕ
  pub cq_mask : ℕ
  pub cqes : List Cqe

-- The index of the entry, which is zeroed.
unfoldable pub sqe_get : Ring → ℕ × Ring
sqe_get ctx =
    let index = bit_and ctx.sqe_tail (sub_u32 ctx.sq_entries 1) in
    (index, record ctx { sqes = set ctx.sqes index zero_sqe; sqe_tail = u32 (ctx.sqe_tail + 1) })

-- The assignments to the fields of the entry.
abbrev pub fill : Ring → ℕ → Sqe → Ring
fill ctx index sqe = record ctx { sqes = set ctx.sqes index sqe }

-- `true` says that `io_uring_enter` has been called.
unfoldable pub sq_enqueue : Ring → ℕ → Ring × Bool
sq_enqueue ctx index =
    let tail = ctx.sq_tail in
    let ctx' = record ctx {
      array = set ctx.array (bit_and tail ctx.sq_mask) index;
      sq_tail = u32 (tail + 1);
    } in
    (ctx', ctx.asleep)

-- The index of the entry.
unfoldable pub cq_peek : Ring → Option ℕ
cq_peek ctx =
    let head = ctx.cq_head in if head == ctx.cq_tail then none else some (bit_and head ctx.cq_mask)

-- `count` is not negative in any call.
unfoldable pub cq_discard : Ring → ℕ → Ring
cq_discard ctx count = record ctx { cq_head = u32 (ctx.cq_head + count) }

-- What `io_uring_enter` gives: its result, and the ring, in which the kernel has completed entries.
pub record Entered : Type 0 where
  pub ret : ℤ
  pub ring : Ring

abbrev pub found_after : Option ℕ → ℤ × Option ℕ
found_after none = (negsuc 0, none)
found_after (some i) = (pos 0, some i)

abbrev pub wait_after : Ring → ℤ → (ℤ × Option ℕ) × Ring
wait_after ring (pos n) = (found_after (cq_peek ring), ring)
wait_after ring (negsuc n) = ((negsuc n, none), ring)

abbrev pub wait_from : Ring → Entered → Option ℕ → (ℤ × Option ℕ) × Ring
wait_from ctx entered (some i) = ((pos 0, some i), ctx)
wait_from ctx entered none = wait_after entered.ring entered.ret

-- The result, `*cqe_out`, and the ring.
unfoldable pub cqe_wait : Ring → Entered → (ℤ × Option ℕ) × Ring
cqe_wait ctx entered = wait_from ctx entered (cq_peek ctx)
