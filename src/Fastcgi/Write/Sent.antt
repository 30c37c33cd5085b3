-- ===== src/Fastcgi/Write/Sent.antt =====
-- What the transmit buffer holds after `cg_fastcgi_stdout` and `cg_fastcgi_end`.
use compuguessr.Base.{
  ℕ, ◌+◌, ◌*◌, ◌/◌, ◌%◌, ◌^◌, ◌≤◌, ◌<◌, ◌≡◌, refl, ◌∙◌, ap, inl, inr, true, false, List, [], ◌∷◌,
  ◌++◌, Returns, length, length-append, replicate, take, arith, ltb, if◌then◌else◌, Bool-cases,
}
use compuguessr.Base.Text.{take-write, length-write}
use compuguessr.Base.Words.{u16, u32}
use compuguessr.Fastcgi.Record.{
  header_size, header_bytes, read_header, bswap16, stdout_type, end_request_type,
  handle_begin_request, handle_begin_request_lem,
}
use compuguessr.Fastcgi.Parse.{Buffer}
use compuguessr.Fastcgi.Write.{reply_header, append, stdout, end_request}
use compuguessr.Request.{Request}
use mathlib.Core.List.{append-nil, append_assoc}

-- The bytes that wait to be sent.
abbrev pub sent : Buffer → List ℕ
sent tx = take tx.valid tx.buf

pub record IsTx (tx : Buffer) : Type 0 where
  pub sized : length tx.buf ≡ tx.len
  pub filled : tx.valid ≤ tx.len
  pub small : tx.len < 2 ^ 31

pub record Appended (tx : Buffer) (src : List ℕ) (tx' : Buffer) : Type 0 where
  pub valid : IsTx tx'
  pub sends : sent tx' ≡ sent tx ++ src
  pub grows : tx'.valid ≡ tx.valid + length src
  pub same_len : tx'.len ≡ tx.len

append-Appended :
    (tx : Buffer) (src : List ℕ)
    → IsTx tx
    → tx.valid + length src ≤ tx.len
    → Appended tx src (append tx src)
append-Appended tx src t fits =
    let exact : u32 (tx.valid + length src) ≡ tx.valid + length src = omega (arith, t.small) in
    rw exact (record {
      valid = record {
        sized = length-write tx.buf tx.valid src (omega (arith, t.sized)) ∙ t.sized;
        filled = fits;
        small = t.small;
      };
      sends = take-write tx.buf tx.valid src (omega (arith, t.sized, t.filled));
      grows = refl;
      same_len = refl;
    })

-- One record of the protocol, as it is sent.
abbrev pub record_bytes : ℕ → ℕ → List ℕ → List ℕ
record_bytes type req_id body = header_bytes (reply_header type req_id (length body)) ++ body

append_two :
    {tx tx₁ tx₂ : Buffer} (a b : List ℕ)
    → Appended tx a tx₁
    → Appended tx₁ b tx₂
    → Appended tx (a ++ b) tx₂
append_two {tx} a b p q = record {
  valid = q.valid;
  sends = q.sends ∙ ap (λ l. l ++ b) p.sends ∙ append_assoc (sent tx) a b;
  grows = omega (arith, p.grows, q.grows, length-append a b);
  same_len = q.same_len ∙ p.same_len;
}

pub stdout-Appended :
    (tx : Buffer) (req_id : ℕ) (resp : List ℕ)
    → IsTx tx
    → tx.valid + header_size + length resp ≤ tx.len
    → Appended tx (record_bytes stdout_type req_id resp) (stdout tx req_id resp)
unfolding stdout
stdout-Appended tx req_id resp t fits =
    let hdr = header_bytes (reply_header stdout_type req_id (length resp)) in
    let room : ltb tx.len (tx.valid + header_size + length resp) ≡ false = ground arith in
    let first = append-Appended tx hdr t (omega arith) in
    let second =
      append-Appended (append tx hdr) resp first.valid
        (omega (arith, first.grows, first.same_len)) in
    rw room (elim (Bool-cases (ltb 0 (length resp))) [
      | inl body ↦ rw body (append_two hdr resp first second)
      | inr none_left ↦ rw none_left (empty_body resp (ground arith) first)
    ])
  where
    empty_body :
        {tx' : Buffer} (l : List ℕ)
        → length l ≡ 0
        → Appended tx (header_bytes (reply_header stdout_type req_id (length l))) tx'
        → Appended tx (record_bytes stdout_type req_id l) tx'
    empty_body [] e a = rw append-nil a
    empty_body (c ∷ l) e a = absurd (omega arith)

stdout_refused :
    (tx : Buffer) (req_id : ℕ) (resp : List ℕ)
    → ltb tx.len (tx.valid + header_size + length resp) ≡ true
    → stdout tx req_id resp ≡ tx
unfolding stdout
stdout_refused tx req_id resp over = rw over refl

-- A response that fits is sent as one STDOUT record behind what is there already; one that does
-- not fit changes nothing.
pub stdout-sent :
    (tx : Buffer) (req_id : ℕ) (resp : List ℕ)
    → IsTx tx
    → IsTx (stdout tx req_id resp)
      × (sent (stdout tx req_id resp) ≡ (
          if ltb tx.len (tx.valid + header_size + length resp)
          then sent tx
          else sent tx ++ record_bytes stdout_type req_id resp))
stdout-sent tx req_id resp t =
    elim (Bool-cases (ltb tx.len (tx.valid + header_size + length resp))) [
      | inl over ↦ rw (over, stdout_refused tx req_id resp over) (t, refl)
      | inr fits ↦
          let a = stdout-Appended tx req_id resp t (ground arith) in (a.valid, rw fits a.sends)
    ]

-- Where 24 bytes fit, the end of a request is sent as an empty STDOUT record
-- and an END_REQUEST record with eight zero bytes.
pub end_request-sent :
    (tx : Buffer) (req_id : ℕ)
    → IsTx tx
    → tx.valid + 24 ≤ tx.len
    → IsTx (end_request tx req_id)
      × (sent (end_request tx req_id)
          ≡ (sent tx ++ record_bytes stdout_type req_id [])
            ++ record_bytes end_request_type req_id (replicate 8 0))
unfolding end_request replicate
end_request-sent tx req_id t fits =
    let room : ltb tx.len (tx.valid + header_size + 8) ≡ false = ground arith in
    let first = stdout-Appended tx req_id [] t (omega arith) in
    let hdr = header_bytes (reply_header end_request_type req_id 8) in
    let second =
      append-Appended (stdout tx req_id []) hdr first.valid
        (omega (arith, first.grows, first.same_len)) in
    let third =
      append-Appended (append (stdout tx req_id []) hdr) (replicate 8 0) second.valid
        (omega (arith, first.grows, second.grows, first.same_len, second.same_len)) in
    let whole = append_two hdr (replicate 8 0) second third in
    rw room (
      whole.valid,
      whole.sends ∙ ap (λ l. l ++ record_bytes end_request_type req_id (replicate 8 0)) first.sends,
    )

-- The guard of `cg_fastcgi_end` counts 16 bytes and 24 are written: with 16 to 23 bytes left, the
-- valid bytes end up to 8 behind the end of the buffer.
pub end_request_overruns :
    (tx : Buffer) (req_id : ℕ)
    → IsTx tx
    → tx.valid + 16 ≤ tx.len
    → tx.len < tx.valid + 24
    → (tx.len < (end_request tx req_id).valid) × ((end_request tx req_id).valid ≡ tx.valid + 24)
unfolding end_request replicate
end_request_overruns tx req_id t guard short =
    let room : ltb tx.len (tx.valid + header_size + 8) ≡ false = ground arith in
    let first = stdout-Appended tx req_id [] t (omega arith) in
    let end_valid : u32 (u32 ((stdout tx req_id []).valid + 8) + 8) ≡ tx.valid + 24 =
      omega (arith, first.grows, t.small) in
    rw room (omega (arith, end_valid), end_valid)

id_low : (b1 b0 : ℕ) → b1 < 256 → b0 < 256 → bswap16 (b1 + b0 * 256) % 256 ≡ b0
id_low b1 b0 h₁ h₀ = omega arith

id_high : (b1 b0 : ℕ) → b1 < 256 → b0 < 256 → bswap16 (b1 + b0 * 256) / 256 % 256 ≡ b1
id_high b1 b0 h₁ h₀ = omega arith

size_low : (n : ℕ) → bswap16 (u16 n) % 256 ≡ n / 256 % 256
size_low n = omega arith

size_high : (n : ℕ) → bswap16 (u16 n) / 256 % 256 ≡ n % 256
size_high n = omega arith

-- The id of a reply is the id of the request with its two bytes swapped: for a BEGIN_REQUEST whose
-- header has the id bytes `b1 b0`, with at least three bytes of the buffer behind it, a reply that
-- fits the transmit buffer carries `b0 b1`.
pub reply_id_swapped :
    (req : Request) (payload resp : List ℕ) (version type b1 b0 : ℕ) (rest : List ℕ) (tx : Buffer)
    → b1 < 256
    → b0 < 256
    → 2 < length payload
    → IsTx tx
    → tx.valid + header_size + length resp ≤ tx.len
    → let hdr = read_header (version ∷ type ∷ b1 ∷ b0 ∷ rest) in
      Returns (handle_begin_request req hdr payload) (λ req'.
        sent (stdout tx req'.req_id resp)
        ≡ sent tx
          ++ ((1
                ∷ stdout_type
                ∷ b0
                ∷ b1
                ∷ (length resp / 256 % 256)
                ∷ (length resp % 256)
                ∷ 0
                ∷ 0
                ∷ [])
              ++ resp))
reply_id_swapped req payload resp version type b1 b0 rest tx h₁ h₀ three t fits =
    let hdr = read_header (version ∷ type ∷ b1 ∷ b0 ∷ rest) in
    (
      _,
      handle_begin_request_lem req hdr payload three,
      (stdout-Appended tx _ resp t fits).sends
          ∙ rw
              (
                id_low b1 b0 h₁ h₀,
                id_high b1 b0 h₁ h₀,
                size_low (length resp),
                size_high (length resp),
              )
              refl,
    )
