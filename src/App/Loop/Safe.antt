-- ===== src/App/Loop/Safe.antt =====
-- The loop keeps every client and both databases well formed.
use compuguessr.Base.{
  ℕ, zero, suc, ◌+◌, ◌≡◌, refl, ◌∙◌, ◌⊎◌, inl, inr, Bool, Option, none, some, Option-cases, List,
  [], ◌∷◌, arith, get_elem?, set, ◌==◌, Bool-cases,
}
use compuguessr.Base.Int.{ℤ, pos, negsuc}
use compuguessr.Base.Search.{find_index}
use compuguessr.Challenges.{Challenge}
use compuguessr.Challenges.Search.{IsSorted}
use compuguessr.Clients.{Client, ClientState, client_init, alloc, is_free, put_state, in_use}
use compuguessr.Router.Account.{Moment}
use compuguessr.Router.Safe.{IsWorld, IsReady}
use compuguessr.Router.Safe.Replying.{IsRouting}
use compuguessr.Uring.{Ring, Cqe}
use compuguessr.Util.Hash.{Crc}
use compuguessr.App.{
  App, ListenState, accept_sqe, accept_cqe, error_state, tag_fastcgi, tag_client, tag_timestamp,
  untag_ptr, get_tag, log_ts,
}
use compuguessr.App.Accepting.{
  admit, admit_at, accepted, accept_result, fastcgi_cqe_handle, timestamp_tick,
}
use compuguessr.App.Loop.{handle_clients, client_completed, dispatch}
use compuguessr.App.Peer.Life.{client_state_handle-IsPeer, client_cqe_handle-Handles}
use compuguessr.App.Peer.Safe.{IsPeer, Answers, Handles}

abbrev pub ArePeers : List Client → Type 0
ArePeers [] = Unit {0}
ArePeers (c ∷ cs) = IsPeer c × ArePeers cs

pub ArePeers-at :
    (pool : List Client) (i : ℕ) (c : Client) → ArePeers pool → get_elem? pool i ≡ some c → IsPeer c
ArePeers-at [] i c p e = absurd (ground (arith, e))
ArePeers-at (d ∷ pool) zero c p e = ground (arith, e, p.0)
ArePeers-at (d ∷ pool) (suc i) c p e = ArePeers-at pool i c p.1 e

pub ArePeers-set :
    (pool : List Client) (i : ℕ) (c : Client) → ArePeers pool → IsPeer c → ArePeers (set pool i c)
ArePeers-set [] i c p g = p
ArePeers-set (d ∷ pool) zero c p g = (g, p.1)
ArePeers-set (d ∷ pool) (suc i) c p g = (p.0, ArePeers-set pool i c p.1 g)

marked-IsPeer : (c : Client) (s : ClientState) → IsPeer c → IsPeer (record c { state = s })
marked-IsPeer c s p =
    let q = p.sound in
    record {
      sound = record {
        rx = q.rx;
        rx_len = q.rx_len;
        tx = q.tx;
        tx_len = q.tx_len;
        tx_pos = q.tx_pos;
        req = q.req;
        padding = q.padding;
      };
      reads = p.reads;
      writes = p.writes;
    }

ArePeers-put_state :
    (pool : List Client) (i : ℕ) (s : ClientState) → ArePeers pool → ArePeers (put_state pool i s)
ArePeers-put_state [] i s p = p
ArePeers-put_state (c ∷ pool) zero s p = (marked-IsPeer c s p.0, p.1)
ArePeers-put_state (c ∷ pool) (suc i) s p = (p.0, ArePeers-put_state pool i s p.1)

-- A new client starts with empty buffers and asks for a read.
admit-IsPeer : (c : Client) (fd : ℕ) → IsPeer c → IsPeer (admit c fd)
unfolding client_init
admit-IsPeer c fd p =
    let q = p.sound in
    record {
      sound = record {
        rx = record {
          sized = q.rx.sized ∙ q.rx_len;
          filled = omega arith;
          small = omega arith;
          bytes = q.rx.bytes;
        };
        rx_len = refl;
        tx = record { sized = q.tx.sized ∙ q.tx_len; filled = omega arith; small = omega arith };
        tx_len = refl;
        tx_pos = omega arith;
        req = q.req;
        padding = q.padding;
      };
      reads = λ _. omega arith;
      writes = λ r. absurd (ground (arith, r));
    }

ArePeers-admit_at : (pool : List Client) (i fd : ℕ) → ArePeers pool → ArePeers (admit_at pool i fd)
ArePeers-admit_at pool i fd p = elim (Option-cases (get_elem? pool i)) [
  | inl e ↦ rw (e, ArePeers) p
  | inr (c, e) ↦
      rw (e, ArePeers)
        (ArePeers-set pool i (admit c fd) p (admit-IsPeer c fd (ArePeers-at pool i c p e)))
]

-- What the loop keeps; the routes do not change.
pub record IsServing (hw : Crc) (table : List Challenge) (sorted : IsSorted table) (app : App)
    : Type 0 where
  pub world : IsWorld app.world
  pub peers : ArePeers app.pool
  pub routing : IsRouting hw table sorted app.routes

ArePeers-alloc : (pool : List Client) → ArePeers pool → ArePeers (alloc pool).1
unfolding alloc
ArePeers-alloc pool p = elim (Option-cases (find_index is_free pool)) [
  | inl e ↦ rw (e, ArePeers) p
  | inr (i, e) ↦ rw (e, ArePeers) (ArePeers-put_state pool i in_use p)
]

pub listen_cases : (s : ListenState) → (s ≡ accept_sqe) ⊎ (s ≡ accept_cqe) ⊎ (s ≡ error_state)
listen_cases accept_sqe = inl refl
listen_cases accept_cqe = inr (inl refl)
listen_cases error_state = inr (inr refl)

module _ (hw : Crc) (table : List Challenge) (sorted : IsSorted table) (file : List ℕ)
    (tick : ℕ) where
  abbrev pub Serving : App → Type 0
  Serving = IsServing hw table sorted

  -- A round of requests to the kernel.
  pub handle_clients-ArePeers :
      (i : ℕ) (pool : List Client) (ring : Ring)
      → ArePeers pool
      → ArePeers (handle_clients i pool ring).0
  unfolding handle_clients
  handle_clients-ArePeers i [] ring p = p
  handle_clients-ArePeers i (c ∷ cs) ring (g, p) =
      ((client_state_handle-IsPeer i c g).0, handle_clients-ArePeers (i + 1) cs _ p)

  pub log_ts-IsServing :
      (level line msg : List ℕ) (now : ℕ) (app : App)
      → Serving app
      → Serving (log_ts file level line msg now app)
  unfolding log_ts
  log_ts-IsServing level line msg now app s = record {
    world = s.world;
    peers = s.peers;
    routing = s.routing;
  }

  accepted-IsServing :
      (fd : ℕ) (more : Bool) (app : App) (found : Option ℕ × List Client)
      → Serving app
      → ArePeers found.1
      → Serving (accepted file fd more app found)
  unfolding accepted
  accepted-IsServing fd more app (none, pool) s p = record {
    world = s.world;
    peers = s.peers;
    routing = s.routing;
  }
  accepted-IsServing fd more app (some i, pool) s p = record {
    world = s.world;
    peers = ArePeers-admit_at pool i fd p;
    routing = s.routing;
  }

  accept_result-IsServing :
      (res : ℤ) (more : Bool) (now : ℕ) (app : App)
      → Serving app
      → Serving (accept_result file res more now app)
  unfolding accept_result log_ts
  accept_result-IsServing (negsuc e) more now app s = record {
    world = s.world;
    peers = s.peers;
    routing = s.routing;
  }
  accept_result-IsServing (pos fd) more now app s =
      accepted-IsServing fd more _ (alloc app.pool) (log_ts-IsServing _ _ _ now app s)
        (ArePeers-alloc app.pool s.peers)

  fastcgi_cqe_handle-IsServing :
      (cqe : Cqe) (now : ℕ) (app : App)
      → Serving app
      → Serving (fastcgi_cqe_handle file cqe now app)
  unfolding fastcgi_cqe_handle
  fastcgi_cqe_handle-IsServing cqe now app s = elim (listen_cases app.listener.state) [
    | inl e ↦ rw (e, fastcgi_cqe_handle) s
    | inr (inl e) ↦ rw (e, fastcgi_cqe_handle) (accept_result-IsServing cqe.res cqe.more now app s)
    | inr (inr e) ↦ rw (e, fastcgi_cqe_handle) s
  ]

  -- What the kernel promises of a completion, as for one client.
  abbrev pub Completes : App → Cqe → Type 0
  Completes app cqe =
      get_tag cqe.user_data ≡ tag_client
      → (c : Client) × (get_elem? app.pool (untag_ptr cqe.user_data) ≡ some c) × Answers c cqe.res

  client_completed-Handles :
      (app : App) (i : ℕ) (res : ℤ) (t : Moment) (c : Client)
      → Serving app
      → IsReady app.world t
      → IsPeer c
      → Answers c res
      → Handles Serving (client_completed hw table file tick app i res t (some c))
  unfolding client_completed
  client_completed-Handles app i res t c s ready p a =
      elim (client_cqe_handle-Handles hw table sorted app.routes s.routing app.world c t res s.world
        ready p a) [
          | inl e ↦ inl (rw e refl)
          | inr (inl e) ↦ inr (inl (rw e refl))
          | inr (inr (r, e, (g, p'))) ↦ inr (
              inr (
                record app { world = r.0; pool = set app.pool i r.1 },
                rw e refl,
                record {
                  world = g;
                  peers = ArePeers-set app.pool i r.1 s.peers p';
                  routing = s.routing;
                },
              ))
        ]

  tick-IsServing : (now : ℕ) (app : App) → Serving app → Serving (timestamp_tick tick now app)
  unfolding timestamp_tick
  tick-IsServing now app s = record { world = s.world; peers = s.peers; routing = s.routing }

  -- Let every client and both databases be well formed, the routes be those of the program, the
  -- table of challenges be sorted, the session id that is drawn be new and the session map have
  -- room; and let a client's completion name a client and have no more bytes than were asked for.
  -- Whatever completes, a connection, a read, a write, a close or the clock: the switch of the main
  -- loop handles it and leaves every client and both databases well formed; or a handler or the
  -- parser of the records overran one of its buffers; or the loop over the parameters of a request
  -- does not end.
  pub dispatch-Handles :
      (app : App) (cqe : Cqe) (t : Moment)
      → Serving app
      → IsReady app.world t
      → Completes app cqe
      → Handles Serving (dispatch hw table file tick app cqe t)
  unfolding dispatch
  dispatch-Handles app cqe t s ready promised =
      elim (Bool-cases (get_tag cqe.user_data == tag_fastcgi)) [
        | inl listener ↦
            rw listener (inr (inr (_, refl, fastcgi_cqe_handle-IsServing cqe t.now app s)))
        | inr a ↦ elim (Bool-cases (get_tag cqe.user_data == tag_client)) [
          | inl client ↦
              let (c, found, answered) = promised (ground arith) in
              rw (a, client, found)
                (client_completed-Handles app (untag_ptr cqe.user_data) cqe.res t c s ready
                  (ArePeers-at app.pool (untag_ptr cqe.user_data) c s.peers found) answered)
          | inr b ↦ elim (Bool-cases (get_tag cqe.user_data == tag_timestamp)) [
            | inl clock ↦ rw (a, b, clock) (inr (inr (_, refl, tick-IsServing t.now app s)))
            | inr other ↦ rw (a, b, other) (inr (inr (app, refl, s)))
          ]
        ]
      ]
