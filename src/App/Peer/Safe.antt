-- ===== src/App/Peer/Safe.antt =====
-- A client of the program stays well formed, whatever arrives.
use compuguessr.Base.{
  ℕ, ◌+◌, ◌-◌, ◌≤◌, ◌<◌, ◌≡◌, refl, ◌∙◌, ◌⊎◌, inl, inr, Bool, true, false, List, Run, fail, endless,
  arith, length-set, ◌==◌, ltb, Bool-cases,
}
use compuguessr.Base.Int.{ℤ, pos, negsuc}
use compuguessr.Base.Words.{u32}
use compuguessr.Challenges.{Challenge}
use compuguessr.Challenges.Search.{IsSorted}
use compuguessr.Clients.{Client}
use compuguessr.Fastcgi.Parse.Bounds.{IsBuffer, parse-Ends}
use compuguessr.Fastcgi.Write.Sent.{IsTx}
use compuguessr.Hashmap.{Map}
use compuguessr.Request
use compuguessr.Request.{Request}
use compuguessr.Router.Account.{Moment}
use compuguessr.Router.Profile.{World}
use compuguessr.Router.Routes.{end_uri}
use compuguessr.Router.Safe.{IsWorld, IsReady, Settles}
use compuguessr.Router.Safe.Replying.{IsRouting, reply-Settles}
use compuguessr.App.Peer.Buffers.{compact-Compacts}
use compuguessr.Util.Hash.{Crc}
use compuguessr.App.Peer.{
  goes_to, with_parsed, route, parsed, received, write_done, renewed, read_sqe, read_cqe, write_sqe,
  write_cqe, close_sqe,
}

-- The buffers and the request of a client.
pub record IsSound (c : Client) : Type 0 where
  pub rx : IsBuffer c.fcgi.rx
  pub rx_len : c.fcgi.rx.len ≡ 65790
  pub tx : IsTx c.fcgi.tx
  pub tx_len : c.fcgi.tx.len ≡ 65790
  pub tx_pos : c.fcgi.tx.pos ≤ c.fcgi.tx.valid
  pub req : Request.IsValid c.req
  pub padding : c.fcgi.saved_hdr.padding_len < 256

-- A read has room for at least one byte, and a write has at least one byte to send.
pub record IsPeer (c : Client) : Type 0 where
  pub sound : IsSound c
  pub reads :
      (c.fcgi.state ≡ read_sqe) ⊎ (c.fcgi.state ≡ read_cqe) → c.fcgi.rx.valid < c.fcgi.rx.len
  pub writes :
      (c.fcgi.state ≡ write_sqe) ⊎ (c.fcgi.state ≡ write_cqe) → c.fcgi.tx.pos < c.fcgi.tx.valid

-- What the kernel promises of a completion: it is an error, or no more than was asked for.
abbrev pub Answers : Client → ℤ → Type 0
Answers c (negsuc e) = Unit {0}
Answers c (pos n) =
    (c.fcgi.state ≡ read_cqe → n ≤ c.fcgi.rx.len - c.fcgi.rx.valid)
    × (c.fcgi.state ≡ write_cqe → n ≤ c.fcgi.tx.valid - c.fcgi.tx.pos)

pub goes_to-IsSound : (c : Client) (s : ℕ) → IsSound c → IsSound (goes_to c s)
goes_to-IsSound c s p = record {
  rx = p.rx;
  rx_len = p.rx_len;
  tx = p.tx;
  tx_len = p.tx_len;
  tx_pos = p.tx_pos;
  req = p.req;
  padding = p.padding;
}

pub closing-IsPeer : (c : Client) → IsSound c → IsPeer (goes_to c close_sqe)
closing-IsPeer c p = record {
  sound = goes_to-IsSound c close_sqe p;
  reads = λ r. absurd (ground (arith, r));
  writes = λ r. absurd (ground (arith, r));
}

reading-IsPeer :
    (c : Client) → IsSound c → c.fcgi.rx.valid < c.fcgi.rx.len → IsPeer (goes_to c read_sqe)
reading-IsPeer c p room = record {
  sound = goes_to-IsSound c read_sqe p;
  reads = λ _. room;
  writes = λ r. absurd (ground (arith, r));
}

writing-IsPeer :
    (c : Client) → IsSound c → c.fcgi.tx.pos < c.fcgi.tx.valid → IsPeer (goes_to c write_sqe)
writing-IsPeer c p waits = record {
  sound = goes_to-IsSound c write_sqe p;
  reads = λ r. absurd (ground (arith, r));
  writes = λ _. waits;
}

renewed-IsPeer : (c : Client) → IsSound c → IsPeer (renewed c)
renewed-IsPeer c p = record {
  sound = record {
    rx = record {
      sized = p.rx.sized;
      filled = omega arith;
      small = p.rx.small;
      bytes = p.rx.bytes;
    };
    rx_len = p.rx_len;
    tx = record { sized = p.tx.sized; filled = omega arith; small = p.tx.small };
    tx_len = p.tx_len;
    tx_pos = omega arith;
    req = p.req;
    padding = p.padding;
  };
  reads = λ _. omega (arith, p.rx_len);
  writes = λ r. absurd (ground (arith, r));
}

abbrev moved : Client → ℕ → Client
moved c n =
    let fcgi = c.fcgi in
    let tx = fcgi.tx in record c { fcgi = record fcgi { tx = record tx { pos = tx.pos + n } } }

moved-IsSound :
    (c : Client) (n : ℕ) → IsSound c → n ≤ c.fcgi.tx.valid - c.fcgi.tx.pos → IsSound (moved c n)
moved-IsSound c n p inside = record {
  rx = p.rx;
  rx_len = p.rx_len;
  tx = record { sized = p.tx.sized; filled = p.tx.filled; small = p.tx.small };
  tx_len = p.tx_len;
  tx_pos = omega (arith, p.tx_pos, inside);
  req = p.req;
  padding = p.padding;
}

pub write_done-IsPeer :
    (c : Client) (res : ℤ)
    → IsSound c
    → c.fcgi.state ≡ write_cqe
    → Answers c res
    → IsPeer (write_done c res)
unfolding write_done
write_done-IsPeer c (negsuc e) p now a = closing-IsPeer c p
write_done-IsPeer c (pos n) p now a =
    let tx = c.fcgi.tx in
    let sum : u32 (tx.pos + n) ≡ tx.pos + n =
      omega (arith, p.tx.small, p.tx.filled, p.tx_pos, a.1 now) in
    let sound = moved-IsSound c n p (a.1 now) in
    elim (Bool-cases (ltb (tx.pos + n) tx.valid)) [
      | inl more ↦ rw (sum, more) (writing-IsPeer (moved c n) sound (ground arith))
      | inr all ↦ elim (Bool-cases (c.req.keep_alive == 0)) [
        | inl last ↦ rw (sum, all, last) (closing-IsPeer (moved c n) sound)
        | inr again ↦ rw (sum, all, again) (renewed-IsPeer (moved c n) sound)
      ]
    ]

end_uri-IsValid : (req : Request) → Request.IsValid req → Request.IsValid (end_uri req)
end_uri-IsValid req v = record {
  uri_size = length-set req.uri 127 0 ∙ v.uri_size;
  method_size = v.method_size;
  session_size = v.session_size;
  stdin_size = v.stdin_size;
  stdin_fits = v.stdin_fits;
}

-- A completion is handled so, or a loop of the parser does not end, or a buffer is overrun.
abbrev pub Handles : {A : Type 0} → (A → Type 0) → Run A → Type 0
Handles P r = (r ≡ fail endless) ⊎ Settles P r

abbrev pub Serves : World × Client → Type 0
Serves r = IsWorld r.0 × IsPeer r.1

module _ (hw : Crc) (table : List Challenge) (sorted : IsSorted table) (routes : Map)
    (routing : IsRouting hw table sorted routes) where
  module _ (w : World) (t : Moment) (g : IsWorld w) (ready : IsReady w t) where
    route-Settles : (c : Client) → IsSound c → Settles Serves (route hw table routes w c t)
    unfolding route
    route-Settles c p =
        elim (reply-Settles hw table sorted routes w c.fcgi.tx c.req t routing g ready p.tx
          p.tx_len) [
            | inl e ↦ inl (rw e refl)
            | inr (r, e, (g', sent, same)) ↦ inr (
              (
                r.0,
                (let fcgi = c.fcgi in
                    record c { fcgi = record fcgi { tx = r.1; state = write_sqe }; req = r.2 }),
              ),
              rw e refl,
              (
                g',
                record {
                  sound = record {
                    rx = p.rx;
                    rx_len = p.rx_len;
                    tx = sent.valid;
                    tx_len = sent.same_len ∙ p.tx_len;
                    tx_pos = omega (arith, sent.begins);
                    req = rw same (end_uri-IsValid c.req p.req);
                    padding = p.padding;
                  };
                  reads = λ r. absurd (ground (arith, r));
                  writes = λ _. omega (arith, sent.begins, sent.waits);
                },
              ),
            )
          ]

    parsed-Settles :
        (c : Client) (is_ready : Bool)
        → IsSound c
        → (is_ready ≡ false → c.fcgi.rx.valid < c.fcgi.rx.len)
        → Settles Serves (parsed hw table routes w c t is_ready)
    unfolding parsed
    parsed-Settles c true p room = route-Settles c p
    parsed-Settles c false p room = inr (_, refl, (g, reading-IsPeer c p (room refl)))

    pub received-Handles :
        (c : Client) (n : ℕ)
        → IsSound c
        → n ≤ c.fcgi.rx.len - c.fcgi.rx.valid
        → Handles Serves (received hw table routes w c t n)
    unfolding received
    received-Handles c n p fits =
        let rx = c.fcgi.rx in
        let sum : u32 (rx.valid + n) ≡ rx.valid + n =
          omega (arith, p.rx.small, p.rx.filled, fits) in
        let full : IsBuffer (record rx { valid = rx.valid + n; pos = 0 }) = record {
          sized = p.rx.sized;
          filled = omega (arith, p.rx.filled, fits);
          small = p.rx.small;
          bytes = p.rx.bytes;
        } in
        rw sum
          (elim (parse-Ends (record rx { valid = rx.valid + n; pos = 0 }) c.req c.fcgi.saved_hdr
            full (omega arith) p.req p.padding) [
              | inl e ↦ inl (rw e refl)
              | inr (inl (over, e)) ↦ inr (inl (rw e refl))
              | inr (inr (r, e, done)) ↦
                  let rest =
                    compact-Compacts (record rx { valid = rx.valid + n; pos = 0 }) r.pos full
                      done.inside in
                  rw e (
                    inr (
                      parsed-Settles (with_parsed c (record rx { valid = rx.valid + n; pos = 0 }) r)
                        r.ready
                        (record {
                          rx = rest.buffer;
                          rx_len = rest.len ∙ p.rx_len;
                          tx = p.tx;
                          tx_len = p.tx_len;
                          tx_pos = p.tx_pos;
                          req = done.req_valid;
                          padding = done.padding;
                        })
                        (λ more. omega (arith, rest.valid, rest.len, p.rx_len, done.room more))))
            ])
