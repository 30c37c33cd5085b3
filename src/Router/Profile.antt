-- ===== src/Router/Profile.antt =====
-- The handlers of src/services/cg_router.c that show or change an account: what they write with
-- `cg_fastcgi_stdout`, which each of them calls once, at its end. A buffer on the stack is the list
-- of what has been written; a reply that is longer than its buffer was written past its end.
use compuguessr.Base.{
  ℕ, Bool, not, Option, none, some, List, [], ◌∷◌, ◌++◌, Run, ok, fail, out_of_bounds, ◌>>=◌,
  length, take, get_or, set, ◌==◌, ltb, if◌then◌else◌,
}
use compuguessr.Base.Text.{codes, c_str, write_str}
use compuguessr.Request.{Request}
use compuguessr.SessionDb
use compuguessr.SessionDb.{SessionDb, entry_get}
use compuguessr.UserDb
use compuguessr.UserDb.{UserDb, UserEntry, find, find_by_id, delete}
use compuguessr.Util.Memory.{memcmp_avx2, is_zero}
use compuguessr.Router.Form.{get_form_value}
use compuguessr.Router.Text.{append_json_escaped, append_uint, get_session_id}
use compuguessr.Router.Replies.{
  ok_json, bad_method, bad_method_plain, unauthorized, unauthorized_plain, bad_request, missing,
  success, deleted, guest_profile,
}

-- `*g_sessiondb` and `*g_userdb`.
pub record World : Type 0 where
  pub sessions : SessionDb
  pub users : UserDb

-- `cg_memcmp_avx2(req->method, text, n) == 0`
abbrev pub method_is : Request → List ℕ → Bool
method_is req text = is_zero (memcmp_avx2 req.method text (length text))

-- The text in a buffer of `size` bytes.
abbrev pub respond : ℕ → List ℕ → Run (List ℕ)
respond size p = if ltb size (length p) then fail out_of_bounds else ok p

-- The user id of the session entry at a place of the pool.
abbrev pub user_of : SessionDb → ℕ → ℕ
user_of db i = let e = get_or db.pool i SessionDb.zero_entry in e.user_id

abbrev pub user_at : UserDb → ℕ → UserEntry
user_at db k = get_or db.pool k UserDb.zero_entry

-- The loop over the completed hashes, from the second on.
unfoldable pub more_hashes : List ℕ → List ℕ → List ℕ
more_hashes p [] = p
more_hashes p (h ∷ hs) = more_hashes (append_uint (p ++ codes "," ++ codes "\"") h ++ codes "\"") hs

unfoldable pub append_hashes : List ℕ → List ℕ → List ℕ
unfolding more_hashes
append_hashes p [] = p
append_hashes p (h ∷ hs) = more_hashes (append_uint (p ++ codes "\"") h ++ codes "\"") hs

unfoldable pub profile_text : UserEntry → List ℕ
unfolding append_hashes
profile_text u =
    let p₁ =
      append_json_escaped (ok_json ++ codes "{\"status\":\"success\",\"username\":\"") u.username in
    let p₂ = append_uint (p₁ ++ codes "\",\"is_guest\":false,\"total_points\":") u.total_points in
    let p₃ = append_uint (p₂ ++ codes ",\"completed_count\":") u.completed_count in
    let p₄ = append_json_escaped (p₃ ++ codes ",\"description\":\"") u.description in
    append_hashes (p₄ ++ codes "\",\"completed_hashes\":[")
      (take u.completed_count u.completed_hashes)
    ++ codes "]}"

-- With the account that was found.
unfoldable pub profile_user : UserDb → Option ℕ → Run (List ℕ)
unfolding profile_text
profile_user users none = ok (unauthorized (codes "User missing"))
profile_user users (some k) =
    let u = user_at users k in
    if ltb (length u.completed_hashes) u.completed_count
    then fail out_of_bounds
    else respond 8192 (profile_text u)

-- With the session entry that was found.
unfoldable pub profile_session : World → Option ℕ → Run (List ℕ)
unfolding profile_user
profile_session w none = ok (unauthorized (codes "Invalid session"))
profile_session w (some i) =
    let uid = user_of w.sessions i in
    if uid == 0
    then respond 8192 (ok_json ++ guest_profile)
    else profile_user w.users (find_by_id w.users uid)

-- `cg_route_api_user_profile`
unfoldable pub user_profile : World → Request → Run (List ℕ)
unfolding profile_session
user_profile w req =
    if not (method_is req (codes "GET"))
    then ok bad_method
    else if get_or req.session_id 0 0 == 0
    then ok (unauthorized (codes "No session"))
    else entry_get w.sessions (get_session_id req) >>= profile_session w

-- The copy of the description into the account.
abbrev pub describe : UserDb → ℕ → List ℕ → UserDb
describe users k description =
    let u = user_at users k in
    let text = c_str description in
    record users {
      pool = set users.pool k (record u { description = write_str u.description (take 2047 text) });
    }

unfoldable pub update_described : World → ℕ → Option (List ℕ) → World × List ℕ
update_described w k none = (w, success)
update_described w k (some description) =
    (record w { users = describe w.users k description }, success)

unfoldable pub update_user : World → Request → Option ℕ → Run (World × List ℕ)
unfolding update_described
update_user w req none = ok (w, unauthorized (codes "User missing"))
update_user w req (some k) =
    get_form_value (c_str req.stdin_buf) (codes "description") 2048 >>= λ value.
    ok (update_described w k value)

unfoldable pub update_session : World → Request → Option ℕ → Run (World × List ℕ)
unfolding update_user
update_session w req none = ok (w, unauthorized (codes "Unauthorized"))
update_session w req (some i) =
    let uid = user_of w.sessions i in
    let go_on = update_user w req (find_by_id w.users uid) in
    if uid == 0 then ok (w, unauthorized (codes "Unauthorized")) else go_on

-- `cg_route_api_user_profile_update`
unfoldable pub profile_update : World → Request → Run (World × List ℕ)
unfolding update_session
profile_update w req =
    if not (method_is req (codes "POST"))
    then ok (w, bad_method)
    else entry_get w.sessions (get_session_id req) >>= update_session w req

unfoldable pub public_text : UserEntry → List ℕ
public_text u =
    let p₁ =
      append_json_escaped (ok_json ++ codes "{\"status\":\"success\",\"username\":\"") u.username in
    let p₂ = append_uint (p₁ ++ codes "\",\"total_points\":") u.total_points in
    let p₃ = append_uint (p₂ ++ codes ",\"completed_count\":") u.completed_count in
    append_json_escaped (p₃ ++ codes ",\"description\":\"") u.description ++ codes "\"}"

unfoldable pub public_user : UserDb → Option ℕ → Run (List ℕ)
unfolding public_text
public_user users none = ok (missing (codes "User not found"))
public_user users (some k) = respond 8192 (public_text (user_at users k))

unfoldable pub public_named : UserDb → Option (List ℕ) → Run (List ℕ)
unfolding public_user
public_named users none = ok (bad_request (codes "Missing username"))
public_named users (some username) = public_user users (find users username)

-- `cg_route_api_public_profile`
unfoldable pub public_profile : World → Request → Run (List ℕ)
unfolding public_named
public_profile w req =
    if not (method_is req (codes "POST"))
    then ok bad_method
    else get_form_value (c_str req.stdin_buf) (codes "username") 64 >>= public_named w.users

abbrev pub points_of : UserDb → Option ℕ → ℕ
points_of users none = 0
points_of users (some k) = let u = user_at users k in u.total_points

abbrev pub no_points : List ℕ
no_points = ok_json ++ codes "{\"points\":0}"

unfoldable pub stats_text : World → Option ℕ → List ℕ
stats_text w none = no_points
stats_text w (some i) =
    let uid = user_of w.sessions i in
    if uid == 0
    then no_points
    else append_uint (ok_json ++ codes "{\"points\":") (points_of w.users (find_by_id w.users uid))
      ++ codes "}"

-- `cg_route_api_user_stats`
unfoldable pub user_stats : World → Request → Run (List ℕ)
unfolding stats_text
user_stats w req =
    entry_get w.sessions (get_session_id req) >>= λ found. respond 256 (stats_text w found)

unfoldable pub delete_session : World → Option ℕ → World × List ℕ
delete_session w none = (w, unauthorized_plain)
delete_session w (some i) =
    let uid = user_of w.sessions i in
    if uid == 0
    then (w, unauthorized_plain)
    else (record w { users = (delete w.users uid).1 }, deleted)

-- `cg_route_api_user_delete`
unfoldable pub user_delete : World → Request → Run (World × List ℕ)
unfolding delete_session
user_delete w req =
    if not (method_is req (codes "POST"))
    then ok (w, bad_method_plain)
    else entry_get w.sessions (get_session_id req) >>= λ found. ok (delete_session w found)
