-- ===== src/Router/Safe/Within.antt =====
-- Registration and login, and their buffers.
use compuguessr.Base.{
  ℕ, ◌≤◌, ◌≡◌, refl, inl, inr, true, false, Option, none, some, List, ◌++◌, ok, Returns, arith,
  length, length-append, ◌==◌, Bool-cases,
}
use compuguessr.Base.Text.{codes, c_str}
use compuguessr.Request.{Request}
use compuguessr.UserDb.{UserEntry, find, create}
use compuguessr.UserDb.Create.{create_cases}
use compuguessr.Util.Hash.{Crc, hash_str}
use compuguessr.Router.Account.{
  Moment, credentials, with_password, pair_up, welcome, enter, registered_reply, register_named,
  auth_register, login_user, login_named, auth_login,
}
use compuguessr.Router.Form.{get_form_value}
use compuguessr.Router.Profile.{World, method_is, user_at}
use compuguessr.Router.Replies.{conflict, set_cookie, user_in}
use compuguessr.Router.Text.{utoa, json_escape}
use compuguessr.Router.Safe.{IsWorld, IsReady}
use compuguessr.Router.Safe.Edits.{find-IsAccount, create-AreUsers}
use compuguessr.Router.Safe.Formless.{same-Returns}
use compuguessr.Router.Safe.Sessions.{Ends, open_session-Returns}
use compuguessr.Router.Safe.Sizes.{length-utoa, length-json_escape, respond-Returns}

-- A value of the form, if there is one, is shorter than the buffer that it is read into.
abbrev pub Read : Option (List ℕ) → Type 0
Read value = Unit {0}

abbrev pub IsReadable : Request → List ℕ → ℕ → Type 0
IsReadable req key size = Returns (get_form_value (c_str req.stdin_buf) key size) Read

module _ (w : World) (t : Moment) (g : IsWorld w) (ready : IsReady w t) where
  length-welcome :
      (sid : ℕ) (u : UserEntry) (points : List ℕ)
      → length (c_str u.username) ≤ 31
      → length points ≤ 20
      → length (welcome sid u points) ≤ 512
  length-welcome sid u points name few =
      let escaped = json_escape (c_str u.username) in
      let start : length set_cookie ≤ 100 = omega arith in
      let middle : length user_in ≤ 100 = omega arith in
      let p₁ = set_cookie ++ utoa sid ++ user_in in
      let h₁ : length p₁ ≤ 220 = omega (
        arith,
        start,
        middle,
        length-append (set_cookie ++ utoa sid) user_in,
        length-append set_cookie (utoa sid),
        length-utoa sid,
      ) in
      let p₂ = p₁ ++ escaped in
      let h₂ : length p₂ ≤ 282 =
        omega (arith, h₁, length-append p₁ escaped, length-json_escape (c_str u.username), name) in
      let p₃ = p₂ ++ codes "\",\"total_points\":" in
      let h₃ : length p₃ ≤ 302 =
        omega (arith, h₂, length-append p₂ (codes "\",\"total_points\":")) in
      let h₄ : length (p₃ ++ points) ≤ 322 = omega (arith, h₃, few, length-append p₃ points) in
      omega (arith, h₄, length-append (p₃ ++ points) (codes "}"))

  enter-Returns :
      (u : UserEntry) (points : List ℕ)
      → length (c_str u.username) ≤ 31
      → length points ≤ 20
      → Returns (enter w u t points) Ends
  unfolding enter
  enter-Returns u points name few =
      let (opened, e, g') = open_session-Returns w u.id t g ready in
      let text = welcome opened.1 u points in
      let fits = length-welcome opened.1 u points name few in
      let (body, replied, whole) = respond-Returns 512 text fits in
      rw (e, replied) ((opened.0, body), refl, (g', rw whole (omega (arith, fits))))

module _ (req : Request) where
  -- The fields of a form for registration and login.
  pub record HasCredentials : Type 0 where
    pub username : IsReadable req (codes "username") 64
    pub password : IsReadable req (codes "password") 64

  with_password-Returns :
      (name : Option (List ℕ))
      → HasCredentials
      → Returns (with_password req name) (λ found. Unit {0})
  unfolding with_password
  with_password-Returns none h = (none, refl, tt)
  with_password-Returns (some name) h =
      let (word, e, _) = h.password in rw e (pair_up name word, refl, tt)

  credentials-Returns : HasCredentials → Returns (credentials req) (λ found. Unit {0})
  unfolding credentials
  credentials-Returns h = let (name, e, _) = h.username in rw e (with_password-Returns name h)

module _ (hw : Crc) (w : World) (t : Moment) (g : IsWorld w) (ready : IsReady w t) where
  register_named-Returns :
      (found : Option (List ℕ × List ℕ)) → Returns (register_named hw w t found) Ends
  unfolding register_named registered_reply
  register_named-Returns none = same-Returns w g _ refl
  register_named-Returns (some (name, word)) =
      let r = create hw w.users name word true in
      let g' : IsWorld (record w { users = r.db }) = record {
        sessions = g.sessions;
        users = create-AreUsers hw w.users name word true g.users;
      } in
      let refused : Returns (ok (record w { users = r.db }, conflict)) Ends =
        same-Returns (record w { users = r.db }) g' conflict refl in
      elim (create_cases hw w.users name word true g.users.valid) [
        | inl (e, _) ↦ let bad : (r.code == 0) ≡ false = ground (arith, e) in rw bad refused
        | inr (inl (e, _, _)) ↦
            let bad : (r.code == 0) ≡ false = ground (arith, e) in rw bad refused
        | inr (inr (reg, _)) ↦
            let done : (r.code == 0) ≡ true = ground (arith, reg.code) in
            let users = create-AreUsers hw w.users name word true g.users in
            let u = users.each reg.slot reg.below reg.busy in
            rw (done, reg.out)
              (enter-Returns (record w { users = r.db }) t g'
                (record { new = ready.new; roomy = ready.roomy }) (user_at r.db reg.slot)
                (codes "0") u.name (omega arith))
      ]

  pub auth_register-Returns :
      (req : Request) → HasCredentials req → Returns (auth_register hw w req t) Ends
  unfolding auth_register
  auth_register-Returns req h = elim (Bool-cases (method_is req (codes "POST"))) [
    | inr other ↦ rw other (same-Returns w g _ refl)
    | inl post ↦
        let (found, e, _) = credentials-Returns req h in rw (post, e) (register_named-Returns found)
  ]

  login_user-Returns :
      (word name : List ℕ) (k : Option ℕ)
      → find w.users name ≡ k
      → Returns (login_user hw w t word k) Ends
  unfolding login_user
  login_user-Returns word name none e = same-Returns w g _ refl
  login_user-Returns word name (some k) e =
      let a = find-IsAccount w.users name k g.users.valid e in
      let u = user_at w.users k in
      let p = g.users.each k a.below a.busy in
      elim (Bool-cases (u.pass_hash == hash_str hw (c_str word))) [
        | inl same ↦
            rw same (
              enter-Returns w t g ready u (utoa u.total_points) p.name (length-utoa u.total_points))
        | inr other ↦ rw other (same-Returns w g _ refl)
      ]

  login_named-Returns : (found : Option (List ℕ × List ℕ)) → Returns (login_named hw w t found) Ends
  unfolding login_named
  login_named-Returns none = same-Returns w g _ refl
  login_named-Returns (some (name, word)) = login_user-Returns word name (find w.users name) refl

  pub auth_login-Returns :
      (req : Request) → HasCredentials req → Returns (auth_login hw w req t) Ends
  unfolding auth_login
  auth_login-Returns req h = elim (Bool-cases (method_is req (codes "POST"))) [
    | inr other ↦ rw other (same-Returns w g _ refl)
    | inl post ↦
        let (found, e, _) = credentials-Returns req h in rw (post, e) (login_named-Returns found)
  ]
