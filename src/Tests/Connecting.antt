-- ===== src/Tests/Connecting.antt =====
-- The first round of the loop at a concrete input: a connection comes.
use compuguessr.Base.{
  ℕ, ◌+◌, ◌≡◌, refl, ap, ◌∙◌, inl, inr, Bool, true, Option, none, some, List, [], ◌∷◌, ◌++◌, arith,
  ok, replicate, ◌==◌,
}
use mathlib.Core.Path.{subst}
use compuguessr.Base.Int.{pos, negsuc}
use compuguessr.Base.Search.{find_index}
use compuguessr.Base.Text.{codes}
use compuguessr.Clients.{Client, empty_buffer, in_use, alloc, client_init, pool_init}
use compuguessr.Fastcgi.Params.Lengths.{IsBytes}
use compuguessr.Router.Safe.{IsReady}
use compuguessr.SessionDb.{SessionDb}
use compuguessr.SessionDb.Invariant.{empty}
use compuguessr.UserDb.{UserDb}
use compuguessr.Uring.{
  Ring, Sqe, Cqe, Entered, zero_cqe, cq_peek, cq_discard, cqe_wait, sqe_get, sq_enqueue,
}
use compuguessr.App.{App, accept_sqe, log_ts, tag_ptr, tag_fastcgi, tag_client}
use compuguessr.App.Accepting.{fastcgi_state_handle, fastcgi_cqe_handle, accept_result, accepted}
use compuguessr.App.Loop.{enqueue, handle_clients, feed, dispatch, discard, complete, round}
use compuguessr.App.Loop.Rounds.{waiting, begun, Faithful}
use compuguessr.App.Loop.Safe.{listen_cases}
use compuguessr.App.Peer.{client_state_handle}
use compuguessr.App.Program.{Turn}
use compuguessr.App.Start.{zero_client, zero_pool, max_clients}
use compuguessr.Tests.Peers.{file}
use compuguessr.Tests.Platform.{ring}
use compuguessr.Tests.Records.{all_bytes-IsBytes}
use compuguessr.Tests.Server.{sums, table, table-IsSorted, moment, world-IsReady}

-- BEGIN_REQUEST, the parameters in two records, of which the second is empty, and no input.
abbrev pub whole_request : List ℕ
whole_request =
    (1 ∷ 1 ∷ 0 ∷ 1 ∷ 0 ∷ 8 ∷ 0 ∷ 0 ∷ 0 ∷ 1 ∷ 1 ∷ 0 ∷ 0 ∷ 0 ∷ 0 ∷ 0 ∷ [])
    ++ (1 ∷ 4 ∷ 0 ∷ 1 ∷ 0 ∷ 47 ∷ 0 ∷ 0 ∷ [])
    ++ (11 ∷ 15 ∷ codes "REQUEST_URI/api/auth/guest")
    ++ (14 ∷ 3 ∷ codes "REQUEST_METHODGET")
    ++ (1 ∷ 4 ∷ 0 ∷ 1 ∷ 0 ∷ 0 ∷ 0 ∷ 0 ∷ [])
    ++ (1 ∷ 5 ∷ 0 ∷ 1 ∷ 0 ∷ 0 ∷ 0 ∷ 0 ∷ [])

-- A connection with the descriptor 5.
abbrev connected : Cqe
connected = record { user_data = tag_ptr 0 tag_fastcgi; res = pos 5; more = true }

-- The first client has read all of the request.
abbrev has_read : Cqe
has_read = record { user_data = tag_ptr 0 tag_client; res = pos 87; more = Bool.false }

-- The ring when the first of them has come, and when the second has.
abbrev pub ring_at : ℕ → Ring
ring_at at = record ring {
  cq_head = at;
  cq_tail = at + 1;
  cqes = connected ∷ has_read ∷ replicate 126 zero_cqe;
}

abbrev pub connecting : Turn
connecting = record {
  now = 1709210097;
  arrivals = [];
  entered = record { ret = pos 1; ring = ring_at 0 };
  moments = moment ∷ [];
}

abbrev pub requesting : Turn
requesting = record {
  now = 1709210098;
  arrivals = (0, whole_request) ∷ [];
  entered = record { ret = pos 1; ring = ring_at 1 };
  moments = moment ∷ [];
}

-- Nothing has completed.
abbrev pub IsQuiet : Ring → Type 0
IsQuiet r = r.cq_head ≡ r.cq_tail

enqueue-IsQuiet : (r : Ring) (sqe : Option Sqe) → IsQuiet r → IsQuiet (enqueue r sqe)
unfolding sqe_get sq_enqueue
enqueue-IsQuiet r none q = q
enqueue-IsQuiet r (some sqe) q = q

handle_clients-IsQuiet :
    (i : ℕ) (pool : List Client) (r : Ring) → IsQuiet r → IsQuiet (handle_clients i pool r).1
unfolding handle_clients
handle_clients-IsQuiet i [] r q = q
handle_clients-IsQuiet i (c ∷ cs) r q =
    handle_clients-IsQuiet (i + 1) cs (enqueue r (client_state_handle i c).1)
      (enqueue-IsQuiet r (client_state_handle i c).1 q)

listening-IsQuiet :
    (now : ℕ) (app : App) → IsQuiet app.ring → IsQuiet (fastcgi_state_handle file now app).ring
unfolding fastcgi_state_handle log_ts sqe_get sq_enqueue
listening-IsQuiet now app q = elim (listen_cases app.listener.state) [
  | inl e ↦ rw (e, fastcgi_state_handle) q
  | inr (inl e) ↦ rw (e, fastcgi_state_handle) q
  | inr (inr e) ↦ rw (e, fastcgi_state_handle) q
]

abbrev pub begins : ℕ → List (ℕ × List ℕ) → Entered → App → App × Option ℕ
begins = begun sums table table-IsSorted file 4096

abbrev pub clients : ℕ → App → List Client
clients = waiting sums table table-IsSorted file 4096

-- The program when the kernel has completed the entry `at`.
abbrev pub woken : ℕ → List (ℕ × List ℕ) → Ring → App → App
woken now arrivals r app =
    let app₁ = fastcgi_state_handle file now app in
    record app₁ { pool = feed arrivals (clients now app); ring = r }

pub begun-woken :
    (now : ℕ) (arrivals : List (ℕ × List ℕ)) (n : ℕ) (r : Ring) (app : App)
    → IsQuiet app.ring
    → begins now arrivals (record { ret = pos n; ring = r }) app
      ≡ (woken now arrivals r app, cq_peek r)
unfolding cqe_wait cq_peek
begun-woken now arrivals n r app q =
    let app₁ = fastcgi_state_handle file now app in
    let quiet = handle_clients-IsQuiet 0 app₁.pool app₁.ring (listening-IsQuiet now app q) in
    let end : ((handle_clients 0 app₁.pool app₁.ring).1.cq_head
          == (handle_clients 0 app₁.pool app₁.ring).1.cq_tail)
        ≡ true =
      ground (arith, quiet) in
    rw end (ground arith)

-- The first client of the zeroed pool, when it has been initialized.
abbrev pub free_one : Client
free_one =
    let z = zero_client 0x400000 in
    let fcgi = z.fcgi in
    record z {
      fcgi = record fcgi {
        state = 0;
        sockfd = negsuc 0;
        rx = empty_buffer fcgi.rx;
        tx = empty_buffer fcgi.tx;
      };
    }

-- The same client with the connection, before and after a read has been asked for.
abbrev pub taken_one : ℕ → Client
taken_one state =
    let fcgi = free_one.fcgi in
    record free_one { state = in_use; fcgi = record fcgi { state = state; sockfd = pos 5 } }

pub first_free :
    (cs : List Client) × (pool_init max_clients (zero_pool max_clients 0x400000) ≡ free_one ∷ cs)
unfolding pool_init zero_pool client_init
first_free = (_, refl)

-- A program that is about to ask for connections, and one that has the first.
abbrev pub at_first : App → List Client → App
at_first app cs =
    let l = app.listener in
    record app { listener = record l { state = accept_sqe }; pool = free_one ∷ cs }

abbrev pub ready_with :
    (s : SessionDb) (u : UserDb) → empty ≡ s → IsReady (record { sessions = s; users = u }) moment
ready_with s u e =
    subst (λ t. IsReady (record { sessions = t; users = u }) moment) e
      (record { new = world-IsReady.new; roomy = world-IsReady.roomy })

pub same_result : {A : Type 0} (a b : A) → ok a ≡ ok b → a ≡ b
same_result a b e = ground (arith, e)

-- What the completion of the connection leaves.
pub record IsConnected (app : App) : Type 0 where
  pub quiet : IsQuiet app.ring
  pub others : List Client
  pub pool : app.pool ≡ taken_one 1 ∷ others
  pub sessions : empty ≡ app.world.sessions

abbrev woken_first : App → List Client → App
woken_first app cs = woken connecting.now [] (ring_at 0) (at_first app cs)

pub connected_lem :
    (app : App) (cs : List Client)
    → empty ≡ app.world.sessions
    → IsConnected (
        discard sums table file 4096
          (fastcgi_cqe_handle file connected moment.now (woken_first app cs)))
unfolding fastcgi_state_handle fastcgi_cqe_handle accept_result accepted alloc find_index
    handle_clients client_state_handle client_init log_ts feed cq_discard
connected_lem app cs s = record { quiet = refl; others = _; pool = refl; sessions = s }

abbrev connected_app : App → List Client → App
connected_app app cs =
    discard sums table file 4096 (fastcgi_cqe_handle file connected moment.now (woken_first app cs))

first_complete :
    (app : App) (cs : List Client)
    → complete sums table file 4096 (moment ∷ []) (woken_first app cs) (cq_peek (ring_at 0))
      ≡ ok (connected_app app cs)
unfolding complete dispatch cq_peek cq_discard fastcgi_state_handle fastcgi_cqe_handle accept_result
    accepted alloc find_index handle_clients client_state_handle client_init log_ts feed
first_complete app cs = refl

pub first_round :
    (app : App) (cs : List Client)
    → IsQuiet app.ring
    → round sums table file 4096 connecting.now connecting.arrivals connecting.entered
        connecting.moments
        (at_first app cs)
      ≡ ok (connected_app app cs)
unfolding round
first_round app cs q =
    ap (λ b. complete sums table file 4096 (moment ∷ []) b.0 b.1)
      (begun-woken connecting.now [] 1 (ring_at 0) (at_first app cs) q)
    ∙ first_complete app cs

pub first-Faithful :
    (app : App) (cs : List Client)
    → empty ≡ app.world.sessions
    → Faithful sums table table-IsSorted file 4096
        (moment ∷ [])
        (woken_first app cs)
        (cq_peek (ring_at 0))
unfolding cq_peek cq_discard dispatch fastcgi_state_handle fastcgi_cqe_handle accept_result accepted
    alloc find_index handle_clients client_state_handle client_init log_ts feed
first-Faithful app cs s = (
  ready_with app.world.sessions app.world.users s,
  (λ e. absurd (omega (arith, e))),
  λ app' e.
      subst
        (λ a.
          Faithful sums table table-IsSorted file 4096 [] (discard sums table file 4096 a)
            (cq_peek (discard sums table file 4096 a).ring))
        (same_result _ app' e) tt,
)

pub whole_request-IsBytes : IsBytes whole_request
whole_request-IsBytes = all_bytes-IsBytes whole_request refl
