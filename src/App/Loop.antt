-- ===== src/App/Loop.antt =====
-- The loop of `main` of src/app/cg_app.c.
pub mod Safe
pub mod Fed
pub mod Rounds
use compuguessr.Base.{
  ℕ, ◌+◌, Option, none, some, List, [], ◌∷◌, Run, ok, fail, out_of_bounds, no_fuel, ◌>>=◌,
  get_elem?, get_or, set, ◌==◌, if◌then◌else◌,
}
use compuguessr.Base.Int.{ℤ}
use compuguessr.Challenges.{Challenge}
use compuguessr.Clients.{Client}
use compuguessr.Router.Account.{Moment}
use compuguessr.Uring.{Ring, Sqe, Cqe, zero_cqe, cq_peek, cq_discard, Entered, cqe_wait}
use compuguessr.Uring.Queue.{submit}
use compuguessr.Util.Hash.{Crc}
use compuguessr.App.{App, tag_fastcgi, tag_client, tag_timestamp, untag_ptr, get_tag}
use compuguessr.App.Accepting.{fastcgi_state_handle, fastcgi_cqe_handle, timestamp_tick}
use compuguessr.App.Peer.{fed, client_state_handle, client_cqe_handle}

abbrev pub enqueue : Ring → Option Sqe → Ring
enqueue ring none = ring
enqueue ring (some sqe) = submit ring sqe

-- The loop over the pool, from the client `i` on.
unfoldable pub handle_clients : ℕ → List Client → Ring → List Client × Ring
handle_clients i [] ring = ([], ring)
handle_clients i (c ∷ cs) ring =
    let (c', sqe) = client_state_handle i c in
    let (cs', ring') = handle_clients (i + 1) cs (enqueue ring sqe) in (c' ∷ cs', ring')

-- What the kernel has received for the clients: the pointer of each one, and its bytes.
unfoldable pub feed : List (ℕ × List ℕ) → List Client → List Client
feed [] pool = pool
feed ((i, bytes) ∷ arrivals) pool = elim (get_elem? pool i) [
  | none ↦ feed arrivals pool
  | some c ↦ feed arrivals (set pool i (fed c bytes))
]

module _ (hw : Crc) (table : List Challenge) (file : List ℕ) (tick : ℕ) where
  unfoldable pub client_completed : App → ℕ → ℤ → Moment → Option Client → Run App
  client_completed app i res t none = fail out_of_bounds
  client_completed app i res t (some c) =
      client_cqe_handle hw table app.routes app.world c t res >>= λ r.
      ok (record app { world = r.0; pool = set app.pool i r.1 })

  -- The switch over the tag.
  unfoldable pub dispatch : App → Cqe → Moment → Run App
  unfolding client_completed
  dispatch app cqe t =
      let i = untag_ptr cqe.user_data in
      let tag = get_tag cqe.user_data in
      if tag == tag_fastcgi
      then ok (fastcgi_cqe_handle file cqe t.now app)
      else if tag == tag_client
      then client_completed app i cqe.res t (get_elem? app.pool i)
      else if tag == tag_timestamp
      then ok (timestamp_tick tick t.now app)
      else ok app

  abbrev pub discard : App → App
  discard app = record app { ring = cq_discard app.ring 1 }

  -- The inner loop, with the moments of its rounds.
  unfoldable pub complete : List Moment → App → Option ℕ → Run App
  unfolding dispatch
  complete ts app none = ok app
  complete [] app (some at) = fail no_fuel
  complete (t ∷ ts) app (some at) =
      let ring = app.ring in
      dispatch app (get_or ring.cqes at zero_cqe) t >>= λ app'.
      let later = discard app' in complete ts later (cq_peek later.ring)

  -- One round of the loop; `entered` is what a wait gives, and `arrivals` what has been received by
  -- then into the buffers of the clients, for the reads that are under way.
  unfoldable pub round : ℕ → List (ℕ × List ℕ) → Entered → List Moment → App → Run App
  unfolding complete handle_clients feed
  round now arrivals entered ts app =
      let app₁ = fastcgi_state_handle file now app in
      let (pool, ring) = handle_clients 0 app₁.pool app₁.ring in
      let (found, ring') = cqe_wait ring entered in
      complete ts (record app₁ { pool = feed arrivals pool; ring = ring' }) found.1
