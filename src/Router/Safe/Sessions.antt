-- ===== src/Router/Safe/Sessions.antt =====
-- The handlers that begin a session leave both databases well formed.
use compuguessr.Base.{
  ℕ, ◌≤◌, ◌≡◌, refl, inl, inr, true, Option, none, some, List, ◌++◌, ok, ◌>>=◌, Returns, arith,
  length, leb, ◌==◌, Bool-cases,
}
use compuguessr.Base.Text.{codes, c_str}
use compuguessr.Request.{Request}
use compuguessr.SessionDb.Create.{entry_create_cases}
use compuguessr.UserDb.{UserEntry, find, create}
use compuguessr.Util.Hash.{Crc, hash_str}
use compuguessr.Router.Account.{
  Moment, open_session, auth_guest, credentials, with_password, pair_up, welcome, enter, copied,
  registered_reply, register_named, auth_register, login_user, login_named, auth_login,
}
use compuguessr.Router.Profile.{World, method_is, respond, user_at}
use compuguessr.Router.Replies.{set_cookie, guest_in}
use compuguessr.Router.Text.{append_uint, utoa}
use compuguessr.Router.Safe.{IsWorld, IsReady, Settles, Settles-bind, respond-Settles}
use compuguessr.Router.Safe.Edits.{create-AreUsers}
use compuguessr.Router.Safe.Forms.{Fits, get_form_value-Settles}

-- No reply is longer than the largest of the buffers.
abbrev pub body_max : ℕ
body_max = 8192

abbrev pub Ends : World × List ℕ → Type 0
Ends r = IsWorld r.0 × (length r.1 ≤ body_max)

pub ends :
    (w : World) (body : List ℕ) → IsWorld w → length body ≤ body_max → Settles Ends (ok (w, body))
ends w body g short = inr ((w, body), refl, (g, short))

pub same-Settles :
    (w : World) (body : List ℕ)
    → IsWorld w
    → leb (length body) body_max ≡ true
    → Settles Ends (ok (w, body))
same-Settles w body g short = ends w body g (ground arith)

module _ (w : World) (uid : ℕ) (t : Moment) (g : IsWorld w) (ready : IsReady w t) where
  pub open_session-Returns : Returns (open_session w uid t) (λ opened. IsWorld opened.0)
  unfolding open_session
  open_session-Returns =
      elim (entry_create_cases w.sessions uid t.draw t.now g.sessions ready.new ready.roomy) [
        | inl (_, e) ↦ rw e (_, refl, record { sessions = g.sessions; users = g.users })
        | inr (_, (r, e, opens)) ↦
            rw e (_, refl, record { sessions = opens.valid; users = g.users })
      ]

  -- A session is opened, and a text about it is sent.
  pub opened-Settles :
      (size : ℕ) (text : ℕ → List ℕ)
      → size ≤ body_max
      → Settles Ends (
          open_session w uid t >>= λ opened.
          respond size (text opened.1) >>= λ body. ok (opened.0, body))
  opened-Settles size text small =
      let (opened, e, g') = open_session-Returns in
      rw e (
        Settles-bind _ Ends (respond size (text opened.1)) (λ body. ok (opened.0, body))
          (respond-Settles size (text opened.1))
          (λ body sent. ends opened.0 body g' (rw sent.0 (omega (arith, sent.1)))))

enter-Settles :
    (w : World) (u : UserEntry) (t : Moment) (points : List ℕ)
    → IsWorld w
    → IsReady w t
    → Settles Ends (enter w u t points)
unfolding enter
enter-Settles w u t points g ready =
    opened-Settles w u.id t g ready 512 (λ sid. welcome sid u points) (omega arith)

pub auth_guest-Settles :
    (w : World) (req : Request) (t : Moment)
    → IsWorld w
    → IsReady w t
    → Settles Ends (auth_guest w req t)
unfolding auth_guest
auth_guest-Settles w req t g ready = elim (Bool-cases (method_is req (codes "POST"))) [
  | inl post ↦ rw post (
      opened-Settles w 0 t g ready 512 (λ sid. append_uint set_cookie sid ++ guest_in)
        (omega arith))
  | inr other ↦ rw other (same-Settles w _ g refl)
]

abbrev Any : Option (List ℕ × List ℕ) → Type 0
Any found = Unit {0}

with_password-Settles :
    (req : Request) (username : Option (List ℕ)) → Settles Any (with_password req username)
unfolding with_password
with_password-Settles req none = inr (none, refl, tt)
with_password-Settles req (some name) =
    Settles-bind (Fits 64) Any _ _
      (get_form_value-Settles (c_str req.stdin_buf) (codes "password") 64)
      (λ password _. inr (pair_up name password, refl, tt))

credentials-Settles : (req : Request) → Settles Any (credentials req)
unfolding credentials
credentials-Settles req =
    Settles-bind (Fits 64) Any _ _
      (get_form_value-Settles (c_str req.stdin_buf) (codes "username") 64)
      (λ username _. with_password-Settles req username)

module _ (hw : Crc) (w : World) (t : Moment) (g : IsWorld w) (ready : IsReady w t) where
  register_named-Settles :
      (found : Option (List ℕ × List ℕ)) → Settles Ends (register_named hw w t found)
  unfolding register_named registered_reply
  register_named-Settles none = same-Settles w _ g refl
  register_named-Settles (some (name, word)) =
      let r = create hw w.users name word true in
      let g' : IsWorld (record w { users = r.db }) = record {
        sessions = g.sessions;
        users = create-AreUsers hw w.users name word true g.users;
      } in
      elim (Bool-cases (r.code == 0)) [
        | inl done ↦ rw done (
            enter-Settles (record w { users = r.db }) (copied r.out) t (codes "0") g'
              (record { new = ready.new; roomy = ready.roomy }))
        | inr bad ↦ rw bad (same-Settles (record w { users = r.db }) _ g' refl)
      ]

  pub auth_register-Settles : (req : Request) → Settles Ends (auth_register hw w req t)
  unfolding auth_register
  auth_register-Settles req = elim (Bool-cases (method_is req (codes "POST"))) [
    | inl post ↦ rw post (
        Settles-bind Any Ends _ _ (credentials-Settles req)
          (λ found _. register_named-Settles found))
    | inr other ↦ rw other (same-Settles w _ g refl)
  ]

  login_user-Settles : (word : List ℕ) (k : Option ℕ) → Settles Ends (login_user hw w t word k)
  unfolding login_user
  login_user-Settles word none = same-Settles w _ g refl
  login_user-Settles word (some k) =
      let u = user_at w.users k in
      elim (Bool-cases (u.pass_hash == hash_str hw (c_str word))) [
        | inl same ↦ rw same (enter-Settles w u t (utoa u.total_points) g ready)
        | inr other ↦ rw other (same-Settles w _ g refl)
      ]

  login_named-Settles : (found : Option (List ℕ × List ℕ)) → Settles Ends (login_named hw w t found)
  unfolding login_named
  login_named-Settles none = same-Settles w _ g refl
  login_named-Settles (some (name, word)) = login_user-Settles word (find w.users name)

  pub auth_login-Settles : (req : Request) → Settles Ends (auth_login hw w req t)
  unfolding auth_login
  auth_login-Settles req = elim (Bool-cases (method_is req (codes "POST"))) [
    | inl post ↦
        rw post (
          Settles-bind Any Ends _ _ (credentials-Settles req)
            (λ found _. login_named-Settles found))
    | inr other ↦ rw other (same-Settles w _ g refl)
  ]
