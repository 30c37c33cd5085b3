-- ===== src/App/Peer/Life.antt =====
-- What a round of the loop and a completion make of a client.
use compuguessr.Base.{
  ℕ, ◌+◌, ◌≤◌, ◌<◌, ◌≡◌, refl, inl, inr, Option, none, some, List, arith, length, ◌==◌, Bool-cases,
}
use compuguessr.Base.Int.{ℤ, pos, negsuc}
use compuguessr.Challenges.{Challenge}
use compuguessr.Challenges.Search.{IsSorted}
use compuguessr.Clients.{Client, free_state}
use compuguessr.Hashmap.{Map}
use compuguessr.Router.Account.{Moment}
use compuguessr.Router.Profile.{World}
use compuguessr.Router.Safe.{IsWorld, IsReady}
use compuguessr.Router.Safe.Replying.{IsRouting}
use compuguessr.Uring.{Sqe, read, write as write_op}
use compuguessr.Util.Hash.{Crc}
use compuguessr.App.Peer.{
  goes_to, read_done, write_done, close_done, client_cqe_handle, client_state_handle, is_negative,
  read_sqe, read_cqe, write_sqe, write_cqe, close_sqe, close_cqe, free_client,
}
use compuguessr.App.Peer.Safe.{
  IsSound, goes_to-IsSound, IsPeer, Answers, Handles, Serves, closing-IsPeer, write_done-IsPeer,
  received-Handles,
}

freed-IsPeer :
    (c : Client)
    → IsSound c
    → IsPeer (
        let fcgi = c.fcgi in
        record c { state = free_state; fcgi = record fcgi { state = free_client } })
freed-IsPeer c p = record {
  sound = record {
    rx = p.rx;
    rx_len = p.rx_len;
    tx = p.tx;
    tx_len = p.tx_len;
    tx_pos = p.tx_pos;
    req = p.req;
    padding = p.padding;
  };
  reads = λ r. absurd (ground (arith, r));
  writes = λ r. absurd (ground (arith, r));
}

closed-IsPeer : (c : Client) → IsSound c → IsPeer (close_done c)
closed-IsPeer c p = record {
  sound = record {
    rx = p.rx;
    rx_len = p.rx_len;
    tx = p.tx;
    tx_len = p.tx_len;
    tx_pos = p.tx_pos;
    req = p.req;
    padding = p.padding;
  };
  reads = λ r. absurd (ground (arith, r));
  writes = λ r. absurd (ground (arith, r));
}

-- An entry asks to read or write at least one byte, inside the buffer it names.
pub record IsRequest (c : Client) (sqe : Sqe) : Type 0 where
  pub reads : sqe.opcode ≡ read → (0 < sqe.len) × (sqe.addr + sqe.len ≤ length c.fcgi.rx.buf)
  pub writes : sqe.opcode ≡ write_op → (0 < sqe.len) × (sqe.addr + sqe.len ≤ c.fcgi.tx.valid)

abbrev pub Asks : Client → Option Sqe → Type 0
Asks c none = Unit {0}
Asks c (some sqe) = IsRequest c sqe

-- A well-formed client asks to read or to write only inside its buffers, and never for no bytes
-- (an answer of no bytes to a read would close the connection); and it stays well formed.
pub client_state_handle-IsPeer :
    (i : ℕ) (c : Client)
    → IsPeer c
    → let (c', sqe) = client_state_handle i c in IsPeer c' × Asks c sqe
unfolding client_state_handle
client_state_handle-IsPeer i c p =
    let s = p.sound in
    elim (Bool-cases (c.fcgi.state == read_sqe)) [
      | inl reading ↦
          let room = p.reads (inl (ground arith)) in
          rw reading (
            record {
              sound = goes_to-IsSound c read_cqe s;
              reads = λ _. room;
              writes = λ r. absurd (ground (arith, r));
            },
            record {
              reads = λ _.
                  (omega (arith, room, s.rx.small), omega (arith, room, s.rx.small, s.rx.sized));
              writes = λ e. absurd (ground (arith, e));
            },
          )
      | inr a ↦ elim (Bool-cases (c.fcgi.state == write_sqe)) [
        | inl writing ↦
            let waits = p.writes (inl (ground arith)) in
            rw (a, writing)
              (
                record {
                  sound = goes_to-IsSound c write_cqe s;
                  reads = λ r. absurd (ground (arith, r));
                  writes = λ _. waits;
                },
                record {
                  reads = λ e. absurd (ground (arith, e));
                  writes = λ _. (
                    omega (arith, waits, s.tx.small, s.tx.filled),
                    omega (arith, waits, s.tx.small, s.tx.filled),
                  );
                },
              )
        | inr b ↦ elim (Bool-cases (c.fcgi.state == close_sqe)) [
          | inr d ↦ rw (a, b, d) (p, tt)
          | inl closing ↦ elim (Bool-cases (is_negative c.fcgi.sockfd)) [
            | inl gone ↦ rw (a, b, closing, gone) (freed-IsPeer c s, tt)
            | inr opened ↦
                rw (a, b, closing, opened)
                  (
                    record {
                      sound = goes_to-IsSound c close_cqe s;
                      reads = λ r. absurd (ground (arith, r));
                      writes = λ r. absurd (ground (arith, r));
                    },
                    record {
                      reads = λ e. absurd (ground (arith, e));
                      writes = λ e. absurd (ground (arith, e));
                    },
                  )
          ]
        ]
      ]
    ]

module _ (hw : Crc) (table : List Challenge) (sorted : IsSorted table) (routes : Map)
    (routing : IsRouting hw table sorted routes) where
  read_done-Handles :
      (w : World) (c : Client) (t : Moment) (res : ℤ)
      → IsWorld w
      → IsReady w t
      → IsPeer c
      → c.fcgi.state ≡ read_cqe
      → Answers c res
      → Handles Serves (read_done hw table routes w c t res)
  unfolding read_done
  read_done-Handles w c t (negsuc e) g ready p now a =
      inr (inr (_, refl, (g, closing-IsPeer c p.sound)))
  read_done-Handles w c t (pos n) g ready p now a = elim (Bool-cases (n == 0)) [
    | inl ended ↦
        rw ended (inr (inr ((w, goes_to c close_sqe), refl, (g, closing-IsPeer c p.sound))))
    | inr more ↦
        rw more (received-Handles hw table sorted routes routing w t g ready c n p.sound (a.0 now))
  ]

  -- On well-formed databases, with the routes of the program, and for a completion of no more bytes
  -- than were asked for: the program handles the completion, and leaves the databases and the
  -- client well formed; or a handler or the parser of the records overran one of its buffers; or
  -- the loop over the parameters of a request does not end.
  pub client_cqe_handle-Handles :
      (w : World) (c : Client) (t : Moment) (res : ℤ)
      → IsWorld w
      → IsReady w t
      → IsPeer c
      → Answers c res
      → Handles Serves (client_cqe_handle hw table routes w c t res)
  unfolding client_cqe_handle
  client_cqe_handle-Handles w c t res g ready p a = elim (Bool-cases (c.fcgi.state == read_cqe)) [
    | inl reading ↦ rw reading (read_done-Handles w c t res g ready p (ground arith) a)
    | inr no_read ↦ elim (Bool-cases (c.fcgi.state == write_cqe)) [
      | inl writing ↦
          rw (no_read, writing)
            (inr (
              inr (
                (w, write_done c res),
                refl,
                (g, write_done-IsPeer c res p.sound (ground arith) a),
              )))
      | inr no_write ↦ elim (Bool-cases (c.fcgi.state == close_cqe)) [
        | inl closing ↦
            rw (no_read, no_write, closing)
              (inr (inr ((w, close_done c), refl, (g, closed-IsPeer c p.sound))))
        | inr other ↦ rw (no_read, no_write, other) (inr (inr ((w, c), refl, (g, p))))
      ]
    ]
  ]
