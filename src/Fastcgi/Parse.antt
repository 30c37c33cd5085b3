-- ===== src/Fastcgi/Parse.antt =====
-- `cg_fastcgi_parse`: the loop over the records in the receive buffer.
pub mod Bounds
use compuguessr.Base.{
  ℕ, zero, suc, ◌+◌, ◌-◌, ◌*◌, ◌/◌, ◌%◌, Bool, true, false, List, Run, ok, fail, no_fuel, ◌>>=◌,
  drop, ◌==◌, ltb, if◌then◌else◌,
}
use compuguessr.Base.Words.{sub_u32, u32}
use compuguessr.Request.{Request}
use compuguessr.Fastcgi.Record.{
  Header, header_size, bswap16, read_header, begin_request_type, params_type, stdin_type,
  handle_begin_request, handle_stdin,
}
use compuguessr.Fastcgi.Params.{handle_params}

-- `struct cg_buffer_metadata` of include/sys/cg_types.h: the pointer `buf` is the number `address` and
-- the memory there.
pub record Buffer : Type 0 where
  pub address : ℕ
  pub buf : List ℕ
  pub len : ℕ
  pub valid : ℕ
  pub pos : ℕ

-- What a call leaves: `ready` is the status 0, otherwise the status is 1.
pub record Parsed : Type 0 where
  pub ready : Bool
  pub pos : ℕ
  pub req : Request
  pub hdr : Header

abbrev pub total_payload : Header → ℕ
total_payload hdr = u32 (bswap16 hdr.content_len + hdr.padding_len)

-- The switch over the record's type; `true` says that the request is complete.
unfoldable pub dispatch : Request → Header → List ℕ → Run (Request × Bool)
dispatch req hdr payload =
    let content_len = bswap16 hdr.content_len in
    if hdr.type == begin_request_type
    then (handle_begin_request req hdr payload >>= λ req'. ok (req', false))
    else if hdr.type == params_type
    then (handle_params req payload content_len >>= λ req'. ok (req', false))
    else if hdr.type == stdin_type
    then ok (handle_stdin req content_len payload)
    else ok (req, false)

abbrev pub clear_type : Header → Header
clear_type hdr = record hdr { type = 0 }

-- From the payload of a record on; `loop` goes on behind the record.
unfoldable pub parse_payload :
    Buffer → Request → Header → (ℕ → Request → Header → Run Parsed) → ℕ → Run Parsed
parse_payload m req hdr loop pos =
    if ltb (sub_u32 m.valid pos) (total_payload hdr)
    then ok (record { ready = false; pos = pos; req = req; hdr = hdr })
    else dispatch req hdr (drop pos m.buf) >>= λ r.
        let next = u32 (pos + total_payload hdr) in
        let rest = loop next r.0 (clear_type hdr) in
        if r.1
        then ok (record { ready = true; pos = next; req = r.0; hdr = clear_type hdr })
        else rest

-- The loop, with fuel.
unfoldable pub parse_from : ℕ → Buffer → ℕ → Request → Header → Run Parsed
parse_from zero m pos req hdr = fail no_fuel
parse_from (suc fuel) m pos req hdr =
    let loop : ℕ → Request → Header → Run Parsed =
      λ pos' req' hdr'. parse_from fuel m pos' req' hdr' in
    let saved = parse_payload m req hdr loop pos in
    let read = parse_payload m req (read_header (drop pos m.buf)) loop (u32 (pos + header_size)) in
    let more = ok (record { ready = false; pos = pos; req = req; hdr = hdr }) in
    if ltb pos m.valid
    then if hdr.type == 0
      then if ltb (sub_u32 m.valid pos) header_size then more else read
      else saved
    else more

-- Each round but the first takes a header off the buffer.
unfoldable pub parse : Buffer → Request → Header → Run Parsed
parse m req hdr = parse_from (m.valid + 2) m m.pos req hdr
