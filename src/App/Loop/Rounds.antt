-- ===== src/App/Loop/Rounds.antt =====
-- Whole rounds of the main loop.
use compuguessr.Base.{ℕ, ◌≡◌, refl, inl, inr, Option, none, some, List, [], ◌∷◌, ok, get_or}
use compuguessr.Challenges.{Challenge}
use compuguessr.Challenges.Search.{IsSorted}
use compuguessr.Router.Account.{Moment}
use compuguessr.Router.Safe.{IsReady}
use compuguessr.Uring.{zero_cqe, cq_peek, Entered, cqe_wait}
use compuguessr.Util.Hash.{Crc}
use compuguessr.App.{App}
use compuguessr.App.Accepting.{fastcgi_state_handle}
use compuguessr.App.Loop.{handle_clients, feed, dispatch, discard, complete, round}
use compuguessr.Clients.{Client}
use compuguessr.App.Loop.Fed.{DoFit, feed-ArePeers}
use compuguessr.App.Loop.Safe.{
  IsServing, listen_cases, handle_clients-ArePeers, log_ts-IsServing, Completes, dispatch-Handles,
}
use compuguessr.App.Peer.Safe.{Handles}

module _ (hw : Crc) (table : List Challenge) (sorted : IsSorted table) (file : List ℕ)
    (tick : ℕ) where
  abbrev Keeps : App → Type 0
  Keeps = IsServing hw table sorted

  -- There is a moment for every completion, the session ids that are drawn are new, and the kernel
  -- keeps its promise for each completion in the state that it is handled in.
  abbrev pub Faithful : List Moment → App → Option ℕ → Type 0
  Faithful ts app none = Unit {0}
  Faithful [] app (some at) = ⊥
  Faithful (t ∷ ts) app (some at) =
      let cqe = get_or app.ring.cqes at zero_cqe in
      IsReady app.world t
      × Completes hw table sorted file tick app cqe
      × ((app' : App)
          → dispatch hw table file tick app cqe t ≡ ok app'
          → Faithful ts (discard hw table file tick app')
              (cq_peek (discard hw table file tick app').ring))

  complete-Handles :
      (ts : List Moment) (app : App) (found : Option ℕ)
      → Keeps app
      → Faithful ts app found
      → Handles Keeps (complete hw table file tick ts app found)
  unfolding complete
  complete-Handles ts app none s f = inr (inr (app, refl, s))
  complete-Handles [] app (some at) s f = absurd f
  complete-Handles (t ∷ ts) app (some at) s (ready, promised, later) =
      let cqe = get_or app.ring.cqes at zero_cqe in
      elim (dispatch-Handles hw table sorted file tick app cqe t s ready promised) [
        | inl e ↦ inl (rw e refl)
        | inr (inl e) ↦ inr (inl (rw e refl))
        | inr (inr (app', e, s')) ↦
            let kept : Keeps (discard hw table file tick app') = record {
              world = s'.world;
              peers = s'.peers;
              routing = s'.routing;
            } in
            rw e (
              complete-Handles ts (discard hw table file tick app')
                (cq_peek (discard hw table file tick app').ring) kept (later app' e))
      ]

  fastcgi_state_handle-IsServing :
      (now : ℕ) (app : App) → Keeps app → Keeps (fastcgi_state_handle file now app)
  unfolding fastcgi_state_handle
  fastcgi_state_handle-IsServing now app s = elim (listen_cases app.listener.state) [
    | inl e ↦
        rw (e, fastcgi_state_handle)
          (log_ts-IsServing hw table sorted file tick _ _ _ now _
            (record { world = s.world; peers = s.peers; routing = s.routing }))
    | inr (inl e) ↦ rw (e, fastcgi_state_handle) s
    | inr (inr e) ↦ rw (e, fastcgi_state_handle) s
  ]

  -- The clients, when a round waits for the kernel.
  abbrev pub waiting : ℕ → App → List Client
  waiting now app =
      let app₁ = fastcgi_state_handle file now app in (handle_clients 0 app₁.pool app₁.ring).0

  -- The program, when a round has asked the kernel, and the completion that it found.
  abbrev pub begun : ℕ → List (ℕ × List ℕ) → Entered → App → App × Option ℕ
  begun now arrivals entered app =
      let app₁ = fastcgi_state_handle file now app in
      let (pool, ring) = handle_clients 0 app₁.pool app₁.ring in
      let (found, ring') = cqe_wait ring entered in
      (record app₁ { pool = feed arrivals pool; ring = ring' }, found.1)

  -- A round of the main loop from well-formed clients and databases, with the routes of the program
  -- and a sorted table, where the bytes that arrive fit, the kernel's completions have no more
  -- bytes than were asked for, the session ids that are drawn are new and find room, and there is a
  -- moment for every completion that the round handles: it ends with every client and both
  -- databases well formed; or a handler or the parser of the records overran one of its buffers; or
  -- the loop over the parameters of a request does not end.
  pub round-Handles :
      (now : ℕ) (arrivals : List (ℕ × List ℕ)) (entered : Entered) (ts : List Moment) (app : App)
      → Keeps app
      → DoFit arrivals (waiting now app)
      → (let (app', found) = begun now arrivals entered app in Faithful ts app' found)
      → Handles Keeps (round hw table file tick now arrivals entered ts app)
  unfolding round
  round-Handles now arrivals entered ts app s fit f =
      let s₁ = fastcgi_state_handle-IsServing now app s in
      let app₁ = fastcgi_state_handle file now app in
      complete-Handles ts (begun now arrivals entered app).0 (begun now arrivals entered app).1
        (record {
          world = s₁.world;
          peers =
              feed-ArePeers arrivals (waiting now app)
                (handle_clients-ArePeers hw table sorted file tick 0 app₁.pool app₁.ring s₁.peers)
                fit;
          routing = s₁.routing;
        })
        f
