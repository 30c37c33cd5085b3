-- ===== src/Router/Account.antt =====
-- The handlers of src/services/cg_router.c that begin a session. `draw` and `now` are what
-- `getrandom` and the clock give. No handler looks at the result of `cg_sessiondb_entry_create`:
-- where it made no copy, `entry.session_id` is `stale`, what the stack held.
pub mod Cookie
pub mod Remembered
use compuguessr.Base.{
  ℕ, true, not, Option, none, some, List, ◌++◌, Run, ok, ◌>>=◌, ◌==◌, if◌then◌else◌,
}
use compuguessr.Base.Text.{codes, c_str}
use compuguessr.Request.{Request}
use compuguessr.SessionDb.{SessionEntry, Draw, entry_create}
use compuguessr.UserDb
use compuguessr.UserDb.{UserDb, UserEntry, find, create}
use compuguessr.Util.Hash.{Crc, hash_str}
use compuguessr.Router.Form.{get_form_value}
use compuguessr.Router.Text.{append_json_escaped, append_uint, utoa}
use compuguessr.Router.Replies.{
  needs_post, bad_method, bad_request, unauthorized, conflict, set_cookie, guest_in, user_in,
}
use compuguessr.Router.Profile.{World, method_is, respond, user_at}

-- What surrounds a call: the draw, the time and the old bytes of the stack.
pub record Moment : Type 0 where
  pub draw : Draw
  pub now : ℕ
  pub stale : ℕ

abbrev pub session_id_of : Option SessionEntry → ℕ → ℕ
session_id_of none stale = stale
session_id_of (some e) stale = e.session_id

-- `cg_sessiondb_entry_create`, and `entry.session_id` behind it.
unfoldable pub open_session : World → ℕ → Moment → Run (World × ℕ)
open_session w uid t = entry_create w.sessions uid t.draw t.now >>= λ r.
    ok (record w { sessions = r.db }, session_id_of r.out t.stale)

-- `cg_route_api_auth_guest`
unfoldable pub auth_guest : World → Request → Moment → Run (World × List ℕ)
unfolding open_session
auth_guest w req t =
    if not (method_is req (codes "POST"))
    then ok (w, needs_post)
    else open_session w 0 t >>= λ opened.
        respond 512 (append_uint set_cookie opened.1 ++ guest_in) >>= λ body. ok (opened.0, body)

-- The two values, the second of which is only looked for where the first was found.
unfoldable pub pair_up : List ℕ → Option (List ℕ) → Option (List ℕ × List ℕ)
pair_up name none = none
pair_up name (some word) = some (name, word)

unfoldable pub with_password : Request → Option (List ℕ) → Run (Option (List ℕ × List ℕ))
unfolding pair_up
with_password req none = ok none
with_password req (some name) =
    get_form_value (c_str req.stdin_buf) (codes "password") 64 >>= λ password.
    ok (pair_up name password)

unfoldable pub credentials : Request → Run (Option (List ℕ × List ℕ))
unfolding with_password
credentials req = get_form_value (c_str req.stdin_buf) (codes "username") 64 >>= with_password req

-- The reply to a user who is in, from the points on.
abbrev pub welcome : ℕ → UserEntry → List ℕ → List ℕ
welcome sid u points =
    append_json_escaped (append_uint set_cookie sid ++ user_in) u.username
    ++ codes "\",\"total_points\":"
    ++ points
    ++ codes "}"

unfoldable pub enter : World → UserEntry → Moment → List ℕ → Run (World × List ℕ)
unfolding open_session
enter w u t points = open_session w u.id t >>= λ opened.
    respond 512 (welcome opened.1 u points) >>= λ body. ok (opened.0, body)

-- `uentry`, which is only read where `cg_userdb_create` has filled it.
abbrev pub copied : Option UserEntry → UserEntry
copied none = UserDb.zero_entry
copied (some u) = u

module _ (hw : Crc) where
  -- With the outcome of `cg_userdb_create`; the reply to a new user gives 0 points.
  unfoldable pub registered_reply : World → Moment → ℕ → UserDb → UserEntry → Run (World × List ℕ)
  unfolding enter
  registered_reply w t code users u =
      let later = record w { users = users } in
      let go_on = enter later u t (codes "0") in
      if not (code == 0) then ok (later, conflict) else go_on

  unfoldable pub register_named : World → Moment → Option (List ℕ × List ℕ) → Run (World × List ℕ)
  unfolding registered_reply
  register_named w t none = ok (w, bad_request (codes "Missing credentials"))
  register_named w t (some (name, word)) =
      let r = create hw w.users name word true in registered_reply w t r.code r.db (copied r.out)

  -- `cg_route_api_auth_register`
  unfoldable pub auth_register : World → Request → Moment → Run (World × List ℕ)
  unfolding register_named credentials
  auth_register w req t =
      if not (method_is req (codes "POST"))
      then ok (w, bad_method)
      else credentials req >>= register_named w t

  -- With the account that was found.
  unfoldable pub login_user : World → Moment → List ℕ → Option ℕ → Run (World × List ℕ)
  unfolding enter
  login_user w t word none = ok (w, unauthorized (codes "Invalid credentials"))
  login_user w t word (some k) =
      let u = user_at w.users k in
      let go_on = enter w u t (utoa u.total_points) in
      if not (u.pass_hash == hash_str hw (c_str word))
      then ok (w, unauthorized (codes "Invalid credentials"))
      else go_on

  unfoldable pub login_named : World → Moment → Option (List ℕ × List ℕ) → Run (World × List ℕ)
  unfolding login_user
  login_named w t none = ok (w, bad_request (codes "Missing credentials"))
  login_named w t (some (name, word)) = login_user w t word (find w.users name)

  -- `cg_route_api_auth_login`
  unfoldable pub auth_login : World → Request → Moment → Run (World × List ℕ)
  unfolding login_named credentials
  auth_login w req t =
      if not (method_is req (codes "POST"))
      then ok (w, bad_method)
      else credentials req >>= login_named w t
