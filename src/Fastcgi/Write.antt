-- ===== src/Fastcgi/Write.antt =====
-- `cg_fastcgi_stdout` and `cg_fastcgi_end`: the records that are put into the transmit buffer.
pub mod Sent
use compuguessr.Base.{
  ℕ, ◌+◌, ◌%◌, ◌/◌, ◌*◌, Bool, List, [], ◌∷◌, length, replicate, ◌==◌, ltb, if◌then◌else◌,
}
use compuguessr.Base.Text.{write}
use compuguessr.Base.Words.{u16, u32}
use compuguessr.Fastcgi.Record.{
  Header, header_size, header_bytes, bswap16, stdout_type, end_request_type,
}
use compuguessr.Fastcgi.Parse.{Buffer}

-- The header that both functions write, with the id and the length put through `bswap16`.
abbrev pub reply_header : ℕ → ℕ → ℕ → Header
reply_header type req_id content_len = record {
  version = 1;
  type = type;
  request_id = bswap16 req_id;
  content_len = bswap16 (u16 content_len);
  padding_len = 0;
  reserved = 0;
}

-- Bytes at the end of what is valid.
abbrev pub append : Buffer → List ℕ → Buffer
append tx src = record tx { buf = write tx.buf tx.valid src; valid = u32 (tx.valid + length src) }

unfoldable pub stdout : Buffer → ℕ → List ℕ → Buffer
stdout tx req_id resp =
    if ltb tx.len (tx.valid + header_size + length resp)
    then tx
    else let tx₁ = append tx (header_bytes (reply_header stdout_type req_id (length resp))) in
      if ltb 0 (length resp) then append tx₁ resp else tx₁

-- `cg_fastcgi_end`
unfoldable pub end_request : Buffer → ℕ → Buffer
unfolding stdout
end_request tx req_id =
    if ltb tx.len (tx.valid + header_size + 8)
    then tx
    else let tx₁ = stdout tx req_id [] in
      let tx₂ = append tx₁ (header_bytes (reply_header end_request_type req_id 8)) in
      append tx₂ (replicate 8 0)
