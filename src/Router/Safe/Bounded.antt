-- ===== src/Router/Safe/Bounded.antt =====
-- The replies of the handlers that take no text from the request, and their buffers.
use compuguessr.Base.{
  ℕ, zero, suc, ◌+◌, ◌*◌, ◌≤◌, ◌<◌, ◌≡◌, refl, inl, inr, true, false, Option, none, some, List, [],
  ◌∷◌, ◌++◌, Run, ok, ◌>>=◌, Returns, arith, length, length-append, take, get_or, length-take, leb,
  ltb, ◌==◌, Bool-cases,
}
use compuguessr.Base.Text.{codes}
use compuguessr.Hashmap.Lookup.{view}
use compuguessr.Request.{Request}
use compuguessr.SessionDb.{entry_get}
use compuguessr.SessionDb.Invariant.{entry_get-view}
use compuguessr.UserDb.{UserEntry, zero_entry, is_idle, find_by_id}
use compuguessr.Router.Board.{place, top_ten, board_entry, more_entries, board_text, leaderboard}
use compuguessr.Router.Profile.{
  World, method_is, respond, user_of, user_at, points_of, profile_text, profile_user,
  profile_session, user_profile, stats_text, user_stats,
}
use compuguessr.Router.Replies.{ok_json, guest_profile}
use compuguessr.Router.Text.{get_session_id, utoa}
use compuguessr.Router.Safe.{IsWorld, IsUser}
use compuguessr.Router.Safe.Edits.{find_by_id-IsAccount}
use compuguessr.Router.Safe.Sessions.{body_max}
use compuguessr.Router.Safe.Sizes.{
  length-utoa, respond-Returns, length-profile_text, length-board_entry,
}

abbrev ArePlayers : List UserEntry → Type 0
ArePlayers [] = Unit {0}
ArePlayers (u ∷ us) = IsUser u × ArePlayers us

ArePlayers-take : (n : ℕ) (us : List UserEntry) → ArePlayers us → ArePlayers (take n us)
ArePlayers-take zero us g = tt
ArePlayers-take (suc n) [] g = tt
ArePlayers-take (suc n) (u ∷ us) (p, g) = (p, ArePlayers-take n us g)

place-ArePlayers :
    (room : ℕ) (curr : UserEntry) (top : List UserEntry)
    → IsUser curr
    → ArePlayers top
    → ArePlayers (place room curr top) × (length (place room curr top) ≤ room)
unfolding place
place-ArePlayers zero curr top p g = (tt, omega arith)
place-ArePlayers (suc room) curr [] p g = ((p, tt), omega arith)
place-ArePlayers (suc room) curr (t ∷ top) p (q, g) =
    let (rest, short) = place-ArePlayers room curr top p g in
    elim (Bool-cases (ltb t.total_points curr.total_points)) [
      | inl better ↦
          rw (better, ArePlayers)
            ((p, ArePlayers-take room (t ∷ top) (q, g)), omega (arith, length-take room (t ∷ top)))
      | inr worse ↦ rw (worse, ArePlayers) ((q, rest), omega (arith, short))
    ]

top_ten-ArePlayers :
    (pool top : List UserEntry)
    → ArePlayers top
    → length top ≤ 10
    → ((k : ℕ)
        → k < length pool
        → is_idle (get_or pool k zero_entry) ≡ false
        → IsUser (get_or pool k zero_entry))
    → ArePlayers (top_ten top pool) × (length (top_ten top pool) ≤ 10)
unfolding top_ten
top_ten-ArePlayers [] top g few each = (g, few)
top_ten-ArePlayers (u ∷ pool) top g few each = elim (Bool-cases (is_idle u)) [
  | inl idle ↦ rw idle (top_ten-ArePlayers pool top g few (λ k h. each (suc k) (omega (arith, h))))
  | inr busy ↦
      let (g', few') = place-ArePlayers 10 u top (each 0 (omega arith) busy) g in
      rw busy
        (top_ten-ArePlayers pool (place 10 u top) g' few' (λ k h. each (suc k) (omega (arith, h))))
]

length-more_entries :
    (top : List UserEntry) (p : List ℕ)
    → ArePlayers top
    → length (more_entries p top) ≤ length p + 141 * length top
unfolding more_entries
length-more_entries [] p g = omega arith
length-more_entries (u ∷ top) p (q, g) = omega (
  arith,
  length-append p (codes ","),
  length-board_entry u q (p ++ codes ","),
  length-more_entries top (board_entry (p ++ codes ",") u) g,
)

length-board_text :
    (top : List UserEntry) → ArePlayers top → length top ≤ 10 → length (board_text top) ≤ 2048
unfolding board_text
length-board_text [] g few = omega arith
length-board_text (u ∷ top) (q, g) few =
    let p = ok_json ++ codes "{\"status\":\"success\",\"leaderboard\":[" in
    let first = length-board_entry u q p in
    let start : length p ≤ 200 = omega arith in
    let rest = length-more_entries top (board_entry p u) g in
    omega
      (arith, first, start, rest, length-append (more_entries (board_entry p u) top) (codes "]}"))

abbrev pub Shows : List ℕ → Type 0
Shows body = length body ≤ body_max

pub said : (body : List ℕ) → leb (length body) body_max ≡ true → Returns (ok body) Shows
said body short = (body, refl, ground arith)

pub sent :
    (size : ℕ) (text : List ℕ)
    → size ≤ body_max
    → length text ≤ size
    → Returns (respond size text) Shows
sent size text small fits =
    let (body, e, same) = respond-Returns size text fits in (body, e, rw same (omega arith))

module _ (w : World) (g : IsWorld w) where
  pub found-Returns :
      {A : Type 0} (P : A → Type 0) (sid : ℕ) (f : Option ℕ → Run A)
      → ((found : Option ℕ) → Returns (f found) P)
      → Returns (entry_get w.sessions sid >>= f) P
  found-Returns P sid f k =
      rw (entry_get-view w.sessions sid g.sessions) (k (view w.sessions.map sid))

  profile_user-Returns :
      (uid : ℕ) (found : Option ℕ)
      → find_by_id w.users uid ≡ found
      → Returns (profile_user w.users found) Shows
  unfolding profile_user
  profile_user-Returns uid none e = said _ refl
  profile_user-Returns uid (some k) e =
      let a = find_by_id-IsAccount w.users uid k g.users.valid e in
      let u = user_at w.users k in
      let p = g.users.each k a.below a.busy in
      let inside : ltb (length u.completed_hashes) u.completed_count ≡ false =
        ground (arith, p.room.sized, p.room.few) in
      rw inside (sent 8192 (profile_text u) (omega arith) (length-profile_text u p))

  profile_session-Returns : (found : Option ℕ) → Returns (profile_session w found) Shows
  unfolding profile_session
  profile_session-Returns none = said _ refl
  profile_session-Returns (some i) =
      let uid = user_of w.sessions i in
      elim (Bool-cases (uid == 0)) [
        | inl guest_user ↦
            rw guest_user (sent 8192 (ok_json ++ guest_profile) (omega arith) (omega arith))
        | inr known ↦ rw known (profile_user-Returns uid (find_by_id w.users uid) refl)
      ]

  pub user_profile-Returns : (req : Request) → Returns (user_profile w req) Shows
  unfolding user_profile
  user_profile-Returns req = elim (Bool-cases (method_is req (codes "GET"))) [
    | inr other ↦ rw other (said _ refl)
    | inl get ↦ elim (Bool-cases (get_or req.session_id 0 0 == 0)) [
      | inl empty ↦ rw (get, empty) (said _ refl)
      | inr given ↦
          rw (get, given)
            (found-Returns Shows (get_session_id req) (profile_session w) profile_session-Returns)
    ]
  ]

  length-stats_text : (found : Option ℕ) → length (stats_text w found) ≤ 256
  unfolding stats_text
  length-stats_text none = omega arith
  length-stats_text (some i) =
      let uid = user_of w.sessions i in
      let points = points_of w.users (find_by_id w.users uid) in
      let p = ok_json ++ codes "{\"points\":" in
      let start : length p ≤ 200 = omega arith in
      elim (Bool-cases (uid == 0)) [
        | inl guest_user ↦ rw guest_user (omega arith)
        | inr known ↦ rw known (
            omega (
              arith,
              start,
              length-append (p ++ utoa points) (codes "}"),
              length-append p (utoa points),
              length-utoa points,
            ))
      ]

  pub user_stats-Returns : (req : Request) → Returns (user_stats w req) Shows
  unfolding user_stats
  user_stats-Returns req =
      found-Returns Shows (get_session_id req) (λ found. respond 256 (stats_text w found))
        (λ found. sent 256 (stats_text w found) (omega arith) (length-stats_text found))

  pub leaderboard-Returns : (req : Request) → Returns (leaderboard w req) Shows
  unfolding leaderboard
  leaderboard-Returns req = elim (Bool-cases (method_is req (codes "GET"))) [
    | inr other ↦ rw other (said _ refl)
    | inl get ↦
        let users = w.users in
        let (players, few) =
          top_ten-ArePlayers users.pool [] tt (omega arith)
            (λ k h busy. g.users.each k (omega (arith, h, g.users.valid.pooled)) busy) in
        rw get (
          sent 2048 (board_text (top_ten [] users.pool)) (omega arith)
            (length-board_text (top_ten [] users.pool) players few))
  ]
