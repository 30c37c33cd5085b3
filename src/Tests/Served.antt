-- ===== src/Tests/Served.antt =====
-- The program from its start through a connection and a whole request on it.
use compuguessr.Base.{
  ℕ, ◌≡◌, refl, ap, sym, ◌∙◌, inl, inr, some, List, [], ◌∷◌, arith, Run, ok, fail, ◌>>=◌, get_elem?,
  set,
}
use mathlib.Core.Path.{subst}
use compuguessr.Base.Int.{ℤ, pos}
use compuguessr.Clients.{Client}
use compuguessr.Router.Profile.{World}
use compuguessr.App.Loop.Fed.{DoFit}
use compuguessr.SessionDb.{SessionDb}
use compuguessr.SessionDb as SessionDb_mod
use compuguessr.SessionDb.Invariant.{empty}
use compuguessr.Uring.{cq_peek, cq_discard, sqe_get, sq_enqueue}
use compuguessr.App.{App, log_ts}
use compuguessr.App.Accepting.{fastcgi_state_handle}
use compuguessr.App.Loop.{handle_clients, feed, client_completed, dispatch, discard}
use compuguessr.App.Loop.Rounds.{Faithful}
use compuguessr.App.Loop.Safe.{IsServing, listen_cases}
use compuguessr.App.Peer.{fed, client_state_handle, client_cqe_handle}
use compuguessr.App.Peer.Safe.{Handles}
use compuguessr.App.Program.{main, main-Handles, AreFaithful, StartsFaithful}
use compuguessr.App.Start.{main_init, startup, Started, serves, left, no_database}
use compuguessr.App.Start.Serves.{Starts, Begins, startup-Starts}
use compuguessr.Tests.Boot.{stack, stack-AreSound, opening, idle_ring, path_fits}
use compuguessr.Tests.Peers.{file}
use compuguessr.Tests.Server.{sums, table, table-IsSorted, moment}
use compuguessr.Tests.Connecting.{
  whole_request, ring_at, connecting, requesting, IsQuiet, begins, clients, woken, begun-woken,
  free_one, taken_one, first_free, at_first, ready_with, same_result, IsConnected, connected_lem,
  first_round, first-Faithful, whole_request-IsBytes,
}

-- A program with the connection.
abbrev at_second : App → List Client → App
at_second app cs = record app { pool = taken_one 1 ∷ cs }

second_DoFit :
    (app : App) (cs : List Client)
    → DoFit requesting.arrivals (clients requesting.now (at_second app cs))
unfolding fastcgi_state_handle handle_clients client_state_handle log_ts
second_DoFit app cs = elim (listen_cases app.listener.state) [
  | inl e ↦ rw (e, fastcgi_state_handle) (taken_one 2, refl, whole_request-IsBytes, omega arith, tt)
  | inr (inl e) ↦
      rw (e, fastcgi_state_handle) (taken_one 2, refl, whole_request-IsBytes, omega arith, tt)
  | inr (inr e) ↦
      rw (e, fastcgi_state_handle) (taken_one 2, refl, whole_request-IsBytes, omega arith, tt)
]

-- A client's completion does not touch the ring.
client_completed-ring :
    (app app' : App) (i : ℕ) (res : ℤ) (c : Client)
    → client_completed sums table file 4096 app i res moment (some c) ≡ ok app'
    → app.ring ≡ app'.ring
unfolding client_completed
client_completed-ring app app' i res c e =
    kept (client_cqe_handle sums table app.routes app.world c moment res) e
  where
    kept :
        (r : Run (World × Client))
        → (r >>= λ s. ok (record app { world = s.0; pool = set app.pool i s.1 })) ≡ ok app'
        → app.ring ≡ app'.ring
    kept (ok s) h = ap (λ (a : App). a.ring) (same_result _ app' h)
    kept (fail why) h = absurd (ground (arith, h))

first_AreFaithful :
    (app : App) (cs : List Client)
    → IsQuiet app.ring
    → empty ≡ app.world.sessions
    → Faithful sums table table-IsSorted file 4096
        (moment ∷ [])
        (begins connecting.now [] connecting.entered (at_first app cs)).0
        (begins connecting.now [] connecting.entered (at_first app cs)).1
first_AreFaithful app cs q s =
    subst (λ b. Faithful sums table table-IsSorted file 4096 (moment ∷ []) b.0 b.1)
      (sym (begun-woken connecting.now [] 1 (ring_at 0) (at_first app cs) q))
      (first-Faithful app cs s)

abbrev woken_second : App → List Client → App
woken_second app cs = woken requesting.now requesting.arrivals (ring_at 1) (at_second app cs)

abbrev fed_one : Client
fed_one = fed (taken_one 2) whole_request

-- What the second round has, behind its wait.
second_woken :
    (app : App) (cs : List Client)
    → (others : List Client) × ((woken_second app cs).pool ≡ fed_one ∷ others)
      × ((woken_second app cs).world ≡ app.world)
unfolding fastcgi_state_handle handle_clients client_state_handle log_ts feed
second_woken app cs = elim (listen_cases app.listener.state) [
  | inl e ↦ rw (e, fastcgi_state_handle) (_, refl, refl)
  | inr (inl e) ↦ rw (e, fastcgi_state_handle) (_, refl, refl)
  | inr (inr e) ↦ rw (e, fastcgi_state_handle) (_, refl, refl)
]

read-Faithful :
    (app : App) (others : List Client)
    → app.pool ≡ fed_one ∷ others
    → empty ≡ app.world.sessions
    → app.ring ≡ ring_at 1
    → Faithful sums table table-IsSorted file 4096 (moment ∷ []) app (cq_peek (ring_at 1))
unfolding cq_peek cq_discard dispatch
read-Faithful app others p s r = rw r (
  ready_with app.world.sessions app.world.users s,
  (λ e. (fed_one, rw p refl, ((λ _. omega arith), (λ f. absurd (omega (arith, f)))))),
  λ app' e.
      let woken : App = record app { ring = ring_at 1 } in
      let client =
        ap (λ l. client_completed sums table file 4096 woken 0 (pos 87) moment (get_elem? l 0)) p in
      let same = client_completed-ring woken app' 0 (pos 87) fed_one (sym client ∙ e) in
      subst
        (λ g.
          Faithful sums table table-IsSorted file 4096 [] (discard sums table file 4096 app')
            (cq_peek (cq_discard g 1)))
        same tt,
)

second_Faithful :
    (app : App) (cs : List Client)
    → IsQuiet app.ring
    → empty ≡ app.world.sessions
    → Faithful sums table table-IsSorted file 4096
        (moment ∷ [])
        (begins requesting.now requesting.arrivals requesting.entered (at_second app cs)).0
        (begins requesting.now requesting.arrivals requesting.entered (at_second app cs)).1
second_Faithful app cs q s =
    let (others, pool, world) = second_woken app cs in
    subst (λ b. Faithful sums table table-IsSorted file 4096 (moment ∷ []) b.0 b.1)
      (sym (begun-woken requesting.now requesting.arrivals 1 (ring_at 1) (at_second app cs) q))
      (read-Faithful (woken_second app cs) others pool
        (s ∙ ap (λ (w : World). w.sessions) (sym world)) refl)

second_AreFaithful :
    (app : App)
    → IsConnected app
    → AreFaithful sums table table-IsSorted file 4096 (requesting ∷ []) app
second_AreFaithful app c =
    subst (AreFaithful sums table table-IsSorted file 4096 (requesting ∷ []))
      (sym (ap (λ l. record app { pool = l }) c.pool))
      (second_DoFit app c.others, second_Faithful app c.others c.quiet c.sessions, λ app' e. tt)

both-AreFaithful :
    (app : App) (cs : List Client)
    → IsQuiet app.ring
    → empty ≡ app.world.sessions
    → AreFaithful sums table table-IsSorted file 4096
        (connecting ∷ requesting ∷ [])
        (at_first app cs)
both-AreFaithful app cs q s = (
  tt,
  first_AreFaithful app cs q s,
  λ app' e.
      let same = same_result _ app' (sym (first_round app cs q) ∙ e) in
      second_AreFaithful app' (subst IsConnected same (connected_lem app cs s)),
)

Begins-AreFaithful :
    (app : App)
    → (let g = main_init stack in
        Begins sums table table-IsSorted file idle_ring 0x400000 4096 g app)
    → AreFaithful sums table table-IsSorted file 4096 (connecting ∷ requesting ∷ []) app
unfolding empty main_init SessionDb_mod.init sq_enqueue sqe_get
Begins-AreFaithful app (serving, l) =
    let (cs, first) = first_free in
    let listener = app.listener in
    let as_pool = ap (λ p. record app { pool = p }) (l.clients ∙ first) in
    let as_state =
      ap (λ z. record app { pool = free_one ∷ cs; listener = record listener { state = z } })
        l.listens in
    subst (AreFaithful sums table table-IsSorted file 4096 (connecting ∷ requesting ∷ []))
      (sym (as_pool ∙ as_state))
      (both-AreFaithful app cs (rw l.asked refl) (ground (arith, l.sessions)))

Begins-StartsFaithful :
    (s : Started)
    → (let g = main_init stack in
        Starts (Begins sums table table-IsSorted file idle_ring 0x400000 4096 g) g s)
    → StartsFaithful sums table table-IsSorted file 4096 (connecting ∷ requesting ∷ []) s
Begins-StartsFaithful (serves app) b = Begins-AreFaithful app b
Begins-StartsFaithful (left code app) k = tt
Begins-StartsFaithful no_database k = tt

stack-StartsFaithful :
    (s : Started)
    → startup sums file idle_ring 0x400000 4096 stack opening 1709210096 ≡ ok s
    → StartsFaithful sums table table-IsSorted file 4096 (connecting ∷ requesting ∷ []) s
stack-StartsFaithful s e =
    let (s', e', begins') =
      startup-Starts sums table table-IsSorted file idle_ring 0x400000 4096 stack opening 1709210096
        stack-AreSound path_fits in
    rw (same_result s' s (sym e' ∙ e)) at (Begins-StartsFaithful s' begins')

main-Handles_example : Handles (Starts (IsServing sums table table-IsSorted) (main_init stack)) (
    main sums table file 4096 idle_ring 0x400000 stack opening 1709210096
      (connecting ∷ requesting ∷ []))
main-Handles_example =
    main-Handles sums table table-IsSorted file 4096 idle_ring 0x400000 stack opening 1709210096
      (connecting ∷ requesting ∷ []) stack-AreSound path_fits stack-StartsFaithful
