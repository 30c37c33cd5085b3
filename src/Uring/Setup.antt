-- ===== src/Uring/Setup.antt =====
-- `cg_uring_init`: the system calls that it makes, by what they return.
use compuguessr.Base.{
  ℕ, ◌-◌, ◌<◌, ◌+◌, ◌*◌, ◌≡◌, refl, Option, none, some, not, arith, Bool, true, false, List, [],
  ◌∷◌, ◌++◌, ◌==◌, if◌then◌else◌,
}
use compuguessr.Base.Int.{ℤ, pos, negsuc}
use compuguessr.Base.Words.{u32}

-- What the kernel reports in `params` and returns from the three maps; `single`
-- is the feature `IORING_FEAT_SINGLE_MMAP`, and `negsuc 0` is `MAP_FAILED`.
pub record Kernel : Type 0 where
  pub fd : ℤ
  pub sq_entries : ℕ
  pub cq_entries : ℕ
  pub sq_array : ℕ
  pub cq_cqes : ℕ
  pub single : Bool
  pub sq_map : ℤ
  pub cq_map : ℤ
  pub sqe_map : ℤ

-- The calls, with the sizes that they are given.
pub data Call : Type 0 where
  setup : Call
  map_sq : ℕ → Call
  map_cq : ℕ → Call
  map_sqes : ℕ → Call
  unmap_sq : ℕ → Call
  unmap_cq : ℕ → Call
  close_ring : Call

abbrev pub is_failed : ℤ → Bool
is_failed (pos n) = false
is_failed (negsuc n) = n == 0

abbrev pub is_below : ℤ → Bool
is_below (pos n) = false
is_below (negsuc n) = true

abbrev pub sq_sz : Kernel → ℕ
sq_sz k = k.sq_array + k.sq_entries * 4

abbrev pub cq_sz : Kernel → ℕ
cq_sz k = k.cq_cqes + k.cq_entries * 16

abbrev pub sqe_sz : Kernel → ℕ
sqe_sz k = u32 (k.sq_entries * 64)

-- From the map of the entries on. The queue of completions is taken to have a map of its own where
-- its address differs.
unfoldable pub init_sqes : Kernel → ℤ × List Call
init_sqes k =
    if is_failed k.sqe_map
    then (
      k.sqe_map,
      map_sqes (sqe_sz k)
          ∷ ((if k.single then [] else unmap_cq (cq_sz k) ∷ [])
              ++ unmap_sq (sq_sz k) ∷ close_ring ∷ []),
    )
    else (pos 0, map_sqes (sqe_sz k) ∷ [])

unfoldable pub init_cq : Kernel → ℤ × List Call
unfolding init_sqes
init_cq k =
    if k.single
    then init_sqes k
    else if is_failed k.cq_map
    then (k.cq_map, map_cq (cq_sz k) ∷ unmap_sq (sq_sz k) ∷ close_ring ∷ [])
    else ((init_sqes k).0, map_cq (cq_sz k) ∷ (init_sqes k).1)

-- The result, and the calls in their order.
unfoldable pub init : Kernel → ℤ × List Call
unfolding init_cq
init k =
    if is_below k.fd
    then (k.fd, setup ∷ [])
    else if is_failed k.sq_map
    then (k.sq_map, setup ∷ map_sq (sq_sz k) ∷ close_ring ∷ [])
    else ((init_cq k).0, setup ∷ map_sq (sq_sz k) ∷ (init_cq k).1)

-- What the process holds: the descriptor, and the maps with their sizes.
pub record Held : Type 0 where
  pub ring : Bool
  pub sq : Option ℕ
  pub cq : Option ℕ
  pub sqes : Option ℕ

abbrev pub nothing_held : Held
nothing_held = record { ring = false; sq = none; cq = none; sqes = none }

abbrev pub mapped : ℤ → ℕ → Option ℕ
mapped result size = if is_below result then none else some size

-- A map is removed as a whole only by its own size.
abbrev pub unmapped : Option ℕ → ℕ → Option ℕ
unmapped none size = none
unmapped (some n) size = if n == size then none else some n

abbrev pub after_call : Kernel → Held → Call → Held
after_call k h setup = record h { ring = not (is_below k.fd) }
after_call k h (map_sq n) = record h { sq = mapped k.sq_map n }
after_call k h (map_cq n) = record h { cq = mapped k.cq_map n }
after_call k h (map_sqes n) = record h { sqes = mapped k.sqe_map n }
after_call k h (unmap_sq n) = record h { sq = unmapped h.sq n }
after_call k h (unmap_cq n) = record h { cq = unmapped h.cq n }
after_call k h close_ring = record h { ring = false }

unfoldable pub after_calls : Kernel → Held → List Call → Held
after_calls k h [] = h
after_calls k h (c ∷ cs) = after_calls k (after_call k h c) cs

abbrev pub all_held : Kernel → Held
all_held k = record {
  ring = true;
  sq = some (sq_sz k);
  cq = if k.single then none else some (cq_sz k);
  sqes = some (sqe_sz k);
}

failed_below : (r : ℤ) → is_failed r ≡ true → is_below r ≡ true
failed_below (pos n) e = absurd (ground arith)
failed_below (negsuc n) e = refl

same : (n : ℕ) → (n == n) ≡ true
same n = ground arith

-- The documented result of a map that fails.
pub record FailsWithOne (k : Kernel) : Type 0 where
  pub sq : is_below k.sq_map ≡ is_failed k.sq_map
  pub cq : is_below k.cq_map ≡ is_failed k.cq_map
  pub sqes : is_below k.sqe_map ≡ is_failed k.sqe_map

-- `MAP_FAILED` is -1, but a system call gives the number of its error with a minus sign: where the
-- maps of the entries fails with another error than 1, `cg_uring_init` gives 0.
pub init_misses :
    (k : Kernel) (errno : ℕ)
    → is_below k.fd ≡ false
    → k.single ≡ true
    → is_failed k.sq_map ≡ false
    → 1 < errno
    → k.sqe_map ≡ negsuc (errno - 1)
    → (init k).0 ≡ pos 0
unfolding init init_cq init_sqes
init_misses k errno made single sq other e =
    let unseen : (errno - 1 == 0) ≡ false = ground arith in rw (made, sq, single, e, unseen) refl
