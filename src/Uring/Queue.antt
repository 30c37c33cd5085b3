-- ===== src/Uring/Queue.antt =====
-- The rings as queues. `cg_uring_init` asks for 64 entries, and 64 is what the kernel grants.
use compuguessr.Base.{
  ℕ, zero, suc, ◌+◌, ◌-◌, ◌%◌, ◌≤◌, ◌<◌, bit_and, ◌≡◌, refl, ap, ◌∙◌, ◌≢◌, inl, inr, true, false,
  Option, none, some, List, [], ◌∷◌, ◌++◌, arith, length, length-set, get_or, get_or-set, set, ◌==◌,
  if◌then◌else◌, Bool-cases,
}
use compuguessr.Base.Bits.{bit_and_mask}
use compuguessr.Base.Words.{u32, sub_u32}
use compuguessr.Uring.{
  Ring, Sqe, Cqe, zero_sqe, zero_cqe, sqe_get, fill, sq_enqueue, cq_peek, cq_discard,
}

-- What the kernel reads at a position of the submission queue.
abbrev pub queued : Ring → ℕ → Sqe
queued ctx p = get_or ctx.sqes (get_or ctx.array (p % 64) 0) zero_sqe

-- The `n` entries from a position on.
unfoldable pub pending : Ring → ℕ → ℕ → List Sqe
pending ctx p zero = []
pending ctx p (suc n) = queued ctx p ∷ pending ctx (suc p) n

-- `n` entries wait from `head` on, the kernel's place in the queue, both counted without the
-- wrap-around.
pub record IsRing (ctx : Ring) (head n : ℕ) : Type 0 where
  pub entries : ctx.sq_entries ≡ 64
  pub mask : ctx.sq_mask ≡ 63
  pub slots : length ctx.sqes ≡ 64
  pub places : length ctx.array ≡ 64
  pub tail : ctx.sq_tail ≡ u32 (head + n)
  pub same_tail : ctx.sqe_tail ≡ ctx.sq_tail
  pub named : (p : ℕ) → head ≤ p → p < head + n → get_or ctx.array (p % 64) 0 ≡ p % 64

-- `cg_uring_sqe_get`, the assignments and `cg_uring_sq_enqueue`.
abbrev pub submit : Ring → Sqe → Ring
submit ctx sqe = let (index, ctx') = sqe_get ctx in (sq_enqueue (fill ctx' index sqe) index).0

low_bits : (x : ℕ) → bit_and (u32 x) 63 ≡ x % 64
low_bits x = bit_and_mask 6 (u32 x) ∙ omega arith

pub record Submits (ctx : Ring) (head n : ℕ) (sqe : Sqe) (ctx' : Ring) : Type 0 where
  pub ring : IsRing ctx' head (n + 1)
  pub last : queued ctx' (head + n) ≡ sqe
  pub others :
      (p : ℕ) → p % 64 ≢ (head + n) % 64 → head ≤ p → p < head + n → queued ctx' p ≡ queued ctx p

module _ (ctx : Ring) (head n : ℕ) (sqe : Sqe) (r : IsRing ctx head n) where
  index_is : bit_and ctx.sqe_tail (sub_u32 ctx.sq_entries 1) ≡ (head + n) % 64
  index_is = rw (r.same_tail, r.tail, r.entries) (low_bits (head + n))

  tail_is : bit_and ctx.sq_tail ctx.sq_mask ≡ (head + n) % 64
  tail_is = rw (r.tail, r.mask) (low_bits (head + n))

  submit_is : submit ctx sqe ≡ record ctx {
    sqes = set (set ctx.sqes ((head + n) % 64) zero_sqe) ((head + n) % 64) sqe;
    sqe_tail = u32 (ctx.sqe_tail + 1);
    array = set ctx.array ((head + n) % 64) ((head + n) % 64);
    sq_tail = u32 (ctx.sq_tail + 1);
  }
  unfolding sqe_get sq_enqueue
  submit_is = rw (index_is, tail_is) refl

  array_after :
      (p : ℕ)
      → get_or (submit ctx sqe).array (p % 64) 0
        ≡ (if (head + n) % 64 == p % 64 then (head + n) % 64 else get_or ctx.array (p % 64) 0)
  array_after p = rw submit_is (
      get_or-set ctx.array ((head + n) % 64) (p % 64) ((head + n) % 64) 0 (omega (arith, r.places)))

  sqes_after :
      (i : ℕ)
      → get_or (submit ctx sqe).sqes i zero_sqe
        ≡ (if (head + n) % 64 == i then sqe else get_or ctx.sqes i zero_sqe)
  sqes_after i =
      rw
        (
          submit_is,
          get_or-set (set ctx.sqes ((head + n) % 64) zero_sqe) ((head + n) % 64) i sqe zero_sqe
              (omega (arith, r.slots, length-set ctx.sqes ((head + n) % 64) zero_sqe)),
          get_or-set ctx.sqes ((head + n) % 64) i zero_sqe zero_sqe (omega (arith, r.slots)),
        )
        (elim (Bool-cases ((head + n) % 64 == i)) [ inl e ↦ rw e refl | inr e ↦ rw e refl ])

  named_after :
      (p : ℕ) → head ≤ p → p < head + (n + 1) → get_or (submit ctx sqe).array (p % 64) 0 ≡ p % 64
  named_after p low high = elim (Bool-cases ((head + n) % 64 == p % 64)) [
    | inl e ↦ rw (array_after p, e) (ground arith)
    | inr e ↦ rw (array_after p, e) (r.named p low (ground arith))
  ]

  submit-IsRing : IsRing (submit ctx sqe) head (n + 1)
  submit-IsRing = record {
    entries = rw submit_is r.entries;
    mask = rw submit_is r.mask;
    slots = rw submit_is (
        length-set _ ((head + n) % 64) sqe
        ∙ length-set ctx.sqes ((head + n) % 64) zero_sqe
        ∙ r.slots);
    places = rw submit_is (length-set ctx.array _ _ ∙ r.places);
    tail = rw submit_is (omega (arith, r.tail));
    same_tail = rw submit_is (rw r.same_tail refl);
    named = named_after;
  }

  submitted_last : queued (submit ctx sqe) (head + n) ≡ sqe
  submitted_last =
      rw (named_after (head + n) (omega arith) (omega arith), sqes_after ((head + n) % 64))
        (ground arith)

  submitted_others :
      (p : ℕ)
      → head ≤ p
      → p < head + n
      → p % 64 ≢ (head + n) % 64
      → queued (submit ctx sqe) p ≡ queued ctx p
  submitted_others p low high other =
      rw (named_after p low (omega arith), sqes_after (p % 64), r.named p low high) (ground arith)

  pub submit-Submits : Submits ctx head n sqe (submit ctx sqe)
  submit-Submits = record {
    ring = submit-IsRing;
    last = submitted_last;
    others = λ p ne low high. submitted_others p low high ne;
  }

pending-submit :
    (ctx : Ring) (head : ℕ) (sqe : Sqe) (p k n : ℕ)
    → IsRing ctx head n
    → n < 64
    → p + k ≡ head + n
    → head ≤ p
    → pending (submit ctx sqe) p (suc k) ≡ pending ctx p k ++ sqe ∷ []
unfolding pending
pending-submit ctx head sqe p zero n r few same low =
    let here : p ≡ head + n = omega arith in
    rw here (ap (λ s. s ∷ []) (submitted_last ctx head n sqe r))
pending-submit ctx head sqe p (suc k) n r few same low =
    let kept =
      submitted_others ctx head n sqe r p low (omega arith)
        (λ clash. absurd (omega (arith, clash))) in
    rw (kept, pending-submit ctx head sqe (suc p) k n r few (omega arith) (omega arith)) refl

-- Where fewer than 64 entries wait, an entry that is filled and enqueued is read by the kernel
-- behind all that waited before, none of which it changes, and the ring is as well formed as
-- before.
pub submit-pending :
    (ctx : Ring) (head n : ℕ) (sqe : Sqe)
    → IsRing ctx head n
    → n < 64
    → (pending (submit ctx sqe) head (n + 1) ≡ pending ctx head n ++ sqe ∷ [])
      × IsRing (submit ctx sqe) head (n + 1)
submit-pending ctx head n sqe r few = (
  ap (λ k. pending (submit ctx sqe) head k) (omega arith)
      ∙ pending-submit ctx head sqe head n n r few refl (omega arith),
  submit-IsRing ctx head n sqe r,
)

-- `cg_uring_sqe_get` does not look at the kernel's place in the queue: where 64 entries wait, one
-- more takes the place of the oldest, which the kernel then never reads.
pub submit_overruns :
    (ctx : Ring) (head : ℕ) (sqe : Sqe) → IsRing ctx head 64 → queued (submit ctx sqe) head ≡ sqe
submit_overruns ctx head sqe r =
    let wraps : head % 64 ≡ (head + 64) % 64 = omega arith in
    rw wraps (submitted_last ctx head 64 sqe r)

-- The `n` completions from the head on.
unfoldable pub completed : Ring → ℕ → ℕ → List Cqe
completed ctx p zero = []
completed ctx p (suc n) = get_or ctx.cqes (p % 128) zero_cqe ∷ completed ctx (suc p) n

pub record HasCompletions (ctx : Ring) (head n : ℕ) : Type 0 where
  pub mask : ctx.cq_mask ≡ 127
  pub here : ctx.cq_head ≡ u32 head
  pub tail : ctx.cq_tail ≡ u32 (head + n)
  pub few : n ≤ 128

abbrev pub first : Ring → Option ℕ → Option Cqe
first ctx none = none
first ctx (some i) = some (get_or ctx.cqes i zero_cqe)

abbrev pub head? : List Cqe → Option Cqe
head? [] = none
head? (c ∷ cs) = some c

-- The kernel grants 128 completions. What `cg_uring_cq_peek` gives is the first of the completions
-- that wait, or nothing where none waits; and `cg_uring_cq_discard` of one takes the first away.
pub peek_discard :
    (ctx : Ring) (head n : ℕ)
    → HasCompletions ctx head n
    → (first ctx (cq_peek ctx) ≡ head? (completed ctx head n))
      × (n ≢ 0 → HasCompletions (cq_discard ctx 1) (head + 1) (n - 1))
unfolding cq_peek cq_discard completed
peek_discard ctx head zero q =
    let empty : (ctx.cq_head == ctx.cq_tail) ≡ true = ground (arith, q) in
    (rw empty refl, λ none_left. absurd (none_left refl))
peek_discard ctx head (suc n) q =
    let waits : (ctx.cq_head == ctx.cq_tail) ≡ false = ground (arith, q) in
    let place : bit_and ctx.cq_head ctx.cq_mask ≡ head % 128 =
      rw (q.here, q.mask) (bit_and_mask 7 (u32 head) ∙ omega arith) in
    (
      rw (waits, place) refl,
      λ _. record {
        mask = q.mask;
        here = omega (arith, q.here);
        tail = omega (arith, q.tail);
        few = omega (arith, q.few);
      },
    )
