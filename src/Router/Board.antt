-- ===== src/Router/Board.antt =====
-- `cg_route_api_leaderboard` of src/services/cg_router.c. `top` is the list of the entries that
-- are not null, which come first.
pub mod Rank
use compuguessr.Base.{
  ℕ, zero, suc, Bool, true, false, not, List, [], ◌∷◌, ◌++◌, Run, ok, fail, out_of_bounds, take,
  ◌==◌, ltb, if◌then◌else◌, length,
}
use compuguessr.Base.Text.{codes}
use compuguessr.Request.{Request}
use compuguessr.UserDb.{UserDb, UserEntry, is_idle}
use compuguessr.Router.Text.{append_json_escaped, append_uint}
use compuguessr.Router.Replies.{ok_json, bad_method}
use compuguessr.Router.Profile.{World, method_is, respond}

-- The loop over `j`, with the number of places from `j` on: the entries behind are shifted, and
-- the last one falls out.
unfoldable pub place : ℕ → UserEntry → List UserEntry → List UserEntry
place zero curr top = []
place (suc room) curr [] = curr ∷ []
place (suc room) curr (t ∷ top) =
    let rest = place room curr top in
    if ltb t.total_points curr.total_points then curr ∷ take room (t ∷ top) else t ∷ rest

-- The loop over the pool.
unfoldable pub top_ten : List UserEntry → List UserEntry → List UserEntry
unfolding place
top_ten top [] = top
top_ten top (u ∷ pool) = top_ten (if not (is_idle u) then place 10 u top else top) pool

abbrev pub board_entry : List ℕ → UserEntry → List ℕ
board_entry p u =
    append_uint
      (append_json_escaped (p ++ codes "{\"username\":\"") u.username ++ codes "\",\"points\":")
      u.total_points
    ++ codes "}"

-- The entries from the second on.
unfoldable pub more_entries : List ℕ → List UserEntry → List ℕ
more_entries p [] = p
more_entries p (u ∷ top) = more_entries (board_entry (p ++ codes ",") u) top

unfoldable pub board_text : List UserEntry → List ℕ
unfolding more_entries
board_text [] = ok_json ++ codes "{\"status\":\"success\",\"leaderboard\":[" ++ codes "]}"
board_text (u ∷ top) =
    more_entries (board_entry (ok_json ++ codes "{\"status\":\"success\",\"leaderboard\":[") u) top
    ++ codes "]}"

unfoldable pub leaderboard : World → Request → Run (List ℕ)
unfolding top_ten board_text
leaderboard w req =
    let users = w.users in
    if not (method_is req (codes "GET"))
    then ok bad_method
    else respond 2048 (board_text (top_ten [] users.pool))
