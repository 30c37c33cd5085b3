-- ===== src/App/Peer/Split.antt =====
-- A read that ends within the payload of a record: the header is taken off, and what has come of
-- the payload is moved to the start of the buffer.
use compuguessr.Base.{
  ℕ, suc, ◌+◌, ◌-◌, ◌≤◌, ◌<◌, ◌≡◌, refl, ap, inl, true, false, arith, ok, get_or, ◌==◌, ltb, List,
  Bool-cases, inr,
}
use compuguessr.Base.Words.{sub_u32, u32}
use compuguessr.Challenges.{Challenge}
use compuguessr.Clients.{Client}
use compuguessr.Fastcgi.Parse.{Buffer, parse, parse_from, parse_payload, total_payload}
use compuguessr.Fastcgi.Parse.Bounds.{IsBuffer}
use compuguessr.Fastcgi.Record.{Header, read_header}
use compuguessr.Hashmap.{Map}
use compuguessr.Request.{Request}
use compuguessr.Router.Account.{Moment}
use compuguessr.Router.Profile.{World}
use compuguessr.Util.Copy.{tail_size}
use compuguessr.Util.Copy.Clash.{memcpy_avx2-Shifts}
use compuguessr.Util.Copy.Exact.{Clashes, memcpy_avx2-Moves}
use compuguessr.Util.Hash.{Crc}
use compuguessr.App.Peer.{compact, received, read_sqe}
use compuguessr.App.Peer.Buffers.{compact-Fits, leftover_lem}

-- What the move leaves of the bytes from `at` on, where it is the move that is meant.
compact_keeps :
    (rx : Buffer) (at : ℕ)
    → IsBuffer rx
    → at ≤ rx.valid
    → ¬ Clashes rx.address 0 at (rx.valid - at)
    → let rx' = compact rx at in
      (i : ℕ) → i < rx.valid - at → get_or rx'.buf i 0 ≡ get_or rx.buf (at + i) 0
unfolding compact
compact_keeps rx at b inside safe i h =
    let left = leftover_lem rx at b inside in
    let n = rx.valid - at in
    let m = memcpy_avx2-Moves rx.address rx.buf 0 at n (compact-Fits rx at b inside) safe in
    let some : ltb 0 n ≡ true = ground arith in
    let place : 0 + i ≡ i = omega arith in
    elim (Bool-cases (ltb 0 at)) [
      | inl moves ↦ rw (left, some, moves) (rw place at (m.moved i h))
      | inr stays ↦ let here : at + i ≡ i = ground arith in rw (left, some, stays, here) refl
    ]

-- Otherwise some bytes come from `at` places further on.
compact_shifts :
    (rx : Buffer) (at : ℕ)
    → IsBuffer rx
    → at ≤ rx.valid
    → Clashes rx.address 0 at (rx.valid - at)
    → let rx' = compact rx at in
      (i : ℕ)
      → rx.valid - at ≤ i + 32
      → at + i + tail_size rx.address (rx.valid - at) < rx.valid - at
      → get_or rx'.buf i 0 ≡ get_or rx.buf (at + at + i) 0
unfolding compact
compact_shifts rx at b inside c i lo hi =
    let left = leftover_lem rx at b inside in
    let n = rx.valid - at in
    let m = memcpy_avx2-Shifts rx.address rx.buf 0 at n (compact-Fits rx at b inside) c in
    let some : ltb 0 n ≡ true = ground (arith, c.long) in
    let moves : ltb 0 at ≡ true = ground (arith, c.forward) in
    let place : 0 + i ≡ i = omega arith in
    let far : at + (at - 0) + i ≡ at + at + i = omega arith in
    let here : rx.address + 0 ≡ rx.address = omega arith in
    let same : tail_size (rx.address + 0) n ≡ tail_size rx.address n =
      ap (λ a. tail_size a n) here in
    rw (left, some, moves) (rw (place, far) at (m.stale i lo (omega (arith, same, hi))))

-- The buffer when `n` bytes more have come.
abbrev pub filled_with : Buffer → ℕ → Buffer
filled_with rx n = record rx { valid = rx.valid + n; pos = 0 }

-- A read that ends within a payload, when no header was waiting.
pub record IsPartial (rx : Buffer) (saved : Header) (n : ℕ) : Type 0 where
  pub fits : rx.valid + n ≤ rx.len
  pub fresh : saved.type ≡ 0
  pub header : 8 ≤ rx.valid + n
  pub partial : rx.valid + n < 8 + total_payload (read_header rx.buf)

-- The client that waits for the rest of the payload.
abbrev pub waiting : Client → ℕ → Client
waiting c n =
    let fcgi = c.fcgi in
    record c {
      fcgi = record fcgi {
        rx = compact (filled_with fcgi.rx n) 8;
        saved_hdr = read_header fcgi.rx.buf;
        state = read_sqe;
      };
    }

parse_partial :
    (rx : Buffer) (req : Request) (saved : Header) (n : ℕ)
    → IsBuffer rx
    → IsPartial rx saved n
    → parse (filled_with rx n) req saved
      ≡ ok (record { ready = false; pos = 8; req = req; hdr = read_header rx.buf })
unfolding parse parse_from parse_payload
parse_partial rx req saved n b p =
    let m = rx.valid + n in
    let hdr = read_header rx.buf in
    let whole : sub_u32 m 0 ≡ m = omega (arith, b.small, p.fits) in
    let rest : sub_u32 m 8 ≡ m - 8 = omega (arith, b.small, p.fits, p.header) in
    let first : ltb 0 m ≡ true = ground (arith, p.header) in
    let has_header : ltb m 8 ≡ false = ground (arith, p.header) in
    let short : ltb (m - 8) (total_payload hdr) ≡ true = ground (arith, p.partial, p.header) in
    let type : (saved.type == 0) ≡ true = ground (arith, p.fresh) in
    let fuel : m + 2 ≡ suc (m + 1) = omega arith in
    rw (fuel, first, type, whole, has_header, rest, short) refl

pub received-waiting :
    (hw : Crc) (table : List Challenge) (routes : Map) (w : World) (c : Client) (t : Moment) (n : ℕ)
    → IsBuffer c.fcgi.rx
    → IsPartial c.fcgi.rx c.fcgi.saved_hdr n
    → received hw table routes w c t n ≡ ok (w, waiting c n)
unfolding received
received-waiting hw table routes w c t n b p =
    let fcgi = c.fcgi in
    let sum : u32 (fcgi.rx.valid + n) ≡ fcgi.rx.valid + n = omega (arith, b.small, p.fits) in
    rw (sum, parse_partial fcgi.rx c.req fcgi.saved_hdr n b p) refl

module _ (hw : Crc) (table : List Challenge) (routes : Map) where
  module _ (w : World) (c : Client) (t : Moment) (n : ℕ) (b : IsBuffer c.fcgi.rx)
      (p : IsPartial c.fcgi.rx c.fcgi.saved_hdr n) where
    full : IsBuffer (filled_with c.fcgi.rx n)
    full = record { sized = b.sized; filled = p.fits; small = b.small; bytes = b.bytes }

    -- A read that ends within the payload of the first record of the buffer, when no header was
    -- waiting, so that the record's header is the first 8 bytes of the buffer: the client waits with
    -- the header and with what has come of the payload, byte for byte, unless the move clashes.
    pub partial_kept :
        ¬ Clashes c.fcgi.rx.address 0 8 (c.fcgi.rx.valid + n - 8)
        → (i : ℕ) → 8 + i < c.fcgi.rx.valid + n
        → let c' = waiting c n in
          (received hw table routes w c t n ≡ ok (w, c'))
          × (get_or c'.fcgi.rx.buf i 0 ≡ get_or c.fcgi.rx.buf (8 + i) 0)
    partial_kept safe i h = (
      received-waiting hw table routes w c t n b p,
      compact_keeps (filled_with c.fcgi.rx n) 8 full p.header safe i (omega arith),
    )

    -- If the move of what has come of the payload of the first record of the buffer clashes, no
    -- header having waited: among the last 32 bytes that are moved, each one that lies more than 8
    -- places before the tail of the copy becomes the byte that the peer has sent 8 places later than
    -- the right one.
    pub partial_shifted :
        Clashes c.fcgi.rx.address 0 8 (c.fcgi.rx.valid + n - 8)
        → (i : ℕ) → c.fcgi.rx.valid + n ≤ 8 + i + 32
        → 16 + i + tail_size c.fcgi.rx.address (c.fcgi.rx.valid + n - 8) < c.fcgi.rx.valid + n
        → let c' = waiting c n in
          (received hw table routes w c t n ≡ ok (w, c'))
          × (get_or c'.fcgi.rx.buf i 0 ≡ get_or c.fcgi.rx.buf (8 + 8 + i) 0)
    partial_shifted clash i lo hi = (
      received-waiting hw table routes w c t n b p,
      compact_shifts (filled_with c.fcgi.rx n) 8 full p.header clash i (omega (arith, p.header))
          (omega (arith, p.header)),
    )
