-- ===== src/Router/Routes/Answer.antt =====
-- What `cg_route_map_reply` sends.
use compuguessr.Base.{
  ℕ, ◌+◌, ◌≤◌, ◌≡◌, refl, ◌∙◌, inl, inr, Option, none, some, List, [], ◌++◌, Run, ok, arith, length,
  replicate, ltb, Option-cases, Bool-cases,
}
use compuguessr.Base.Text.{c_str}
use compuguessr.Challenges.{Challenge}
use compuguessr.Fastcgi.Parse.{Buffer}
use compuguessr.Fastcgi.Record.{header_size, stdout_type, end_request_type}
use compuguessr.Fastcgi.Write.{stdout, end_request}
use compuguessr.Fastcgi.Write.Sent.{IsTx, sent, record_bytes, stdout-Appended, end_request-sent}
use compuguessr.Hashmap.{Map, get_key_str}
use compuguessr.Hashmap.Lookup.{IsValid, view, scan, get_key_uint-scan}
use compuguessr.Request.{Request}
use compuguessr.Util.Hash.{Crc, hash_str}
use compuguessr.Router.Account.{Moment}
use compuguessr.Router.Profile.{World}
use compuguessr.Router.Replies.{not_found}
use compuguessr.Router.Routes.{call_at, answer, end_uri, reply}

stdout_keeps :
    (tx : Buffer) (id : ℕ) (body : List ℕ)
    → let tx' = stdout tx id body in (tx'.len ≡ tx.len) × (tx'.pos ≡ tx.pos)
unfolding stdout
stdout_keeps tx id body = elim (Bool-cases (ltb tx.len (tx.valid + header_size + length body))) [
  | inl over ↦ rw over (refl, refl)
  | inr fits ↦ elim (Bool-cases (ltb 0 (length body))) [
    | inl more ↦ rw (fits, more) (refl, refl)
    | inr empty ↦ rw (fits, empty) (refl, refl)
  ]
]

end_request_keeps :
    (tx : Buffer) (id : ℕ) → let tx' = end_request tx id in (tx'.len ≡ tx.len) × (tx'.pos ≡ tx.pos)
unfolding end_request
end_request_keeps tx id = elim (Bool-cases (ltb tx.len (tx.valid + header_size + 8))) [
  | inl over ↦ rw over (refl, refl)
  | inr fits ↦ rw fits (stdout_keeps tx id [])
]

-- The transmit buffer as `cg_route_map_reply` begins it.
abbrev begun : Buffer → Buffer
begun tx = record tx { valid = 0; pos = 0 }

begun-IsTx : (tx : Buffer) → IsTx tx → IsTx (begun tx)
begun-IsTx tx i = record { sized = i.sized; filled = omega arith; small = i.small }

abbrev pub whole_reply : ℕ → List ℕ → List ℕ
whole_reply id body =
    (record_bytes stdout_type id body ++ record_bytes stdout_type id [])
    ++ record_bytes end_request_type id (replicate 8 0)

whole_reply-sent :
    (tx : Buffer) (id : ℕ) (body : List ℕ)
    → IsTx tx
    → length body + 32 ≤ tx.len
    → let tx' = end_request (stdout (begun tx) id body) id in
      IsTx tx' × (sent tx' ≡ whole_reply id body)
whole_reply-sent tx id body i fits =
    let start = begun-IsTx tx i in
    let first = stdout-Appended (begun tx) id body start (omega arith) in
    let second =
      end_request-sent (stdout (begun tx) id body) id first.valid
        (omega (arith, first.grows, first.same_len)) in
    (second.0, second.1 ∙ rw first.sends refl)

module _ (hw : Crc) (table : List Challenge) where
  -- The handler that a route leads to, or the reply 404.
  abbrev pub serve : Option ℕ → World → Request → Moment → Run (World × List ℕ)
  serve none w req t = ok (w, not_found)
  serve (some n) w req t = call_at hw table n w req t

  pub answer-serve :
      (m : Map) (w : World) (req : Request) (t : Moment) (key : ℕ)
      → answer hw table m w req t (scan key m.entries) ≡ serve (view m key) w req t
  unfolding answer view
  answer-serve m w req t key = elim (Option-cases (scan key m.entries)) [
    | inl e ↦ rw e refl
    | inr (i, e) ↦ rw e refl
  ]

  -- Let the map of routes be valid, and let the handler that the hash of the URI leads to (or the
  -- reply 404, where it leads nowhere) end with a body. If the transmit buffer has room for the
  -- body and 32 bytes more, the reply to the request ends, the handler's changes are kept, and
  -- what waits to be sent, whatever waited there before, is the body in a STDOUT record, an empty
  -- STDOUT record and an END_REQUEST record; it is sent from the start of the buffer.
  pub reply-sends :
      (m : Map) (w w' : World) (tx : Buffer) (req : Request) (t : Moment) (body : List ℕ)
      → IsValid m
      → IsTx tx
      → let uri = c_str (end_uri req).uri in
        serve (view m (hash_str hw uri)) w (end_uri req) t ≡ ok (w', body)
        → length body + 32 ≤ tx.len
        → (tx' : Buffer) × (reply hw table m w tx req t ≡ ok (w', tx', end_uri req))
          × IsTx tx'
          × (sent tx' ≡ whole_reply req.req_id body)
          × (tx'.len ≡ tx.len)
          × (tx'.pos ≡ 0)
  unfolding reply get_key_str
  reply-sends m w w' tx req t body v i runs fits =
      let key = hash_str hw (c_str (end_uri req).uri) in
      let done = whole_reply-sent tx req.req_id body i fits in
      let served = answer-serve m w (end_uri req) t key ∙ runs in
      let first = stdout_keeps (begun tx) req.req_id body in
      let last = end_request_keeps (stdout (begun tx) req.req_id body) req.req_id in
      (
        _,
        rw (get_key_uint-scan m key v, served) refl,
        done.0,
        done.1,
        last.0 ∙ first.0,
        last.1 ∙ first.1,
      )
