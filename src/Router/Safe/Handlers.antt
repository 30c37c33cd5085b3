-- ===== src/Router/Safe/Handlers.antt =====
-- The handlers that show or change an account end and leave both databases well formed, or they
-- overrun a buffer.
use compuguessr.Base.{
  ℕ, ◌≤◌, ◌≡◌, refl, inl, inr, true, Option, none, some, List, [], ◌++◌, Run, ok, ◌>>=◌, arith,
  length, get_or, ◌==◌, ltb, leb, Bool-cases,
}
use compuguessr.Base.Text.{codes, c_str}
use compuguessr.Hashmap.Lookup.{view}
use compuguessr.Request.{Request}
use compuguessr.SessionDb.{entry_get}
use compuguessr.SessionDb.Invariant.{entry_get-view}
use compuguessr.UserDb.{find, find_by_id, delete}
use compuguessr.Router.Board.{leaderboard, board_text, top_ten}
use compuguessr.Router.Profile.{
  World, method_is, respond, user_of, user_at, profile_text, profile_user, profile_session,
  user_profile, update_described, update_user, update_session, profile_update, public_text,
  public_user, public_named, public_profile, stats_text, user_stats, delete_session, user_delete,
}
use compuguessr.Router.Replies.{ok_json, guest_profile}
use compuguessr.Router.Routes.{keep}
use compuguessr.Router.Text.{get_session_id}
use compuguessr.Router.Safe.{IsWorld, Settles, Settles-bind, respond-Settles}
use compuguessr.Router.Safe.Edits.{find_by_id-IsAccount, describe-AreUsers, delete-AreUsers}
use compuguessr.Router.Safe.Forms.{Fits, get_form_value-Settles}
use compuguessr.Router.Safe.Sessions.{body_max, Ends, same-Settles}

abbrev Shows : List ℕ → Type 0
Shows body = length body ≤ body_max

shown : (body : List ℕ) → leb (length body) body_max ≡ true → Settles Shows (ok body)
shown body short = inr (body, refl, ground arith)

responded : (size : ℕ) (text : List ℕ) → size ≤ body_max → Settles Shows (respond size text)
responded size text small = elim (respond-Settles size text) [
  | inl e ↦ inl e
  | inr (body, e, (sent, fits)) ↦ inr (body, e, rw sent (omega (arith, fits)))
]

module _ (w : World) (g : IsWorld w) where
  pub kept : (r : Run (List ℕ)) → Settles Shows r → Settles Ends (keep w r)
  kept r (inl e) = inl (rw e refl)
  kept r (inr (body, e, short)) = inr ((w, body), rw e refl, (g, short))

  -- The session of a request is looked for, and the search ends.
  pub with_session :
      {A : Type 0} (P : A → Type 0) (sid : ℕ) (f : Option ℕ → Run A)
      → ((found : Option ℕ) → Settles P (f found))
      → Settles P (entry_get w.sessions sid >>= f)
  with_session P sid f k =
      rw (entry_get-view w.sessions sid g.sessions) (k (view w.sessions.map sid))

  same : (body : List ℕ) → leb (length body) body_max ≡ true → Settles Ends (ok (w, body))
  same body short = same-Settles w body g short

  profile_user-Settles : (k : Option ℕ) → Settles Shows (profile_user w.users k)
  unfolding profile_user
  profile_user-Settles none = shown _ refl
  profile_user-Settles (some k) =
      let u = user_at w.users k in
      elim (Bool-cases (ltb (length u.completed_hashes) u.completed_count)) [
        | inl over ↦ inl (rw over refl)
        | inr inside ↦ rw inside (responded 8192 (profile_text u) (omega arith))
      ]

  profile_session-Settles : (found : Option ℕ) → Settles Shows (profile_session w found)
  unfolding profile_session
  profile_session-Settles none = shown _ refl
  profile_session-Settles (some i) =
      let uid = user_of w.sessions i in
      elim (Bool-cases (uid == 0)) [
        | inl guest_user ↦ rw guest_user (responded 8192 (ok_json ++ guest_profile) (omega arith))
        | inr known ↦ rw known (profile_user-Settles (find_by_id w.users uid))
      ]

  pub user_profile-Settles : (req : Request) → Settles Shows (user_profile w req)
  unfolding user_profile
  user_profile-Settles req = elim (Bool-cases (method_is req (codes "GET"))) [
    | inr other ↦ rw other (shown _ refl)
    | inl get ↦ elim (Bool-cases (get_or req.session_id 0 0 == 0)) [
      | inl empty ↦ rw (get, empty) (shown _ refl)
      | inr given ↦
          rw (get, given)
            (with_session Shows (get_session_id req) (profile_session w) profile_session-Settles)
    ]
  ]

  update_described-Settles :
      (uid k : ℕ) (description : Option (List ℕ))
      → find_by_id w.users uid ≡ some k
      → Settles Ends (ok (update_described w k description))
  unfolding update_described
  update_described-Settles uid k none e = same _ refl
  update_described-Settles uid k (some description) e =
      let a = find_by_id-IsAccount w.users uid k g.users.valid e in
      same-Settles (update_described w k (some description)).0 _
        (record {
          sessions = g.sessions;
          users = describe-AreUsers w.users k g.users a description;
        })
        refl

  update_user-Settles :
      (req : Request) (uid : ℕ) (found : Option ℕ)
      → find_by_id w.users uid ≡ found
      → Settles Ends (update_user w req found)
  unfolding update_user
  update_user-Settles req uid none e = same _ refl
  update_user-Settles req uid (some k) e =
      Settles-bind (Fits 2048) Ends _ _
        (get_form_value-Settles (c_str req.stdin_buf) (codes "description") 2048)
        (λ value _. update_described-Settles uid k value e)

  update_session-Settles :
      (req : Request) (found : Option ℕ) → Settles Ends (update_session w req found)
  unfolding update_session
  update_session-Settles req none = same _ refl
  update_session-Settles req (some i) =
      let uid = user_of w.sessions i in
      elim (Bool-cases (uid == 0)) [
        | inl guest_user ↦ rw guest_user (same _ refl)
        | inr known ↦ rw known (update_user-Settles req uid (find_by_id w.users uid) refl)
      ]

  pub profile_update-Settles : (req : Request) → Settles Ends (profile_update w req)
  unfolding profile_update
  profile_update-Settles req = elim (Bool-cases (method_is req (codes "POST"))) [
    | inr other ↦ rw other (same _ refl)
    | inl post ↦
        rw post (
          with_session Ends (get_session_id req) (update_session w req)
            (update_session-Settles req))
  ]

  public_user-Settles : (k : Option ℕ) → Settles Shows (public_user w.users k)
  unfolding public_user
  public_user-Settles none = shown _ refl
  public_user-Settles (some k) = responded 8192 (public_text (user_at w.users k)) (omega arith)

  public_named-Settles : (name : Option (List ℕ)) → Settles Shows (public_named w.users name)
  unfolding public_named
  public_named-Settles none = shown _ refl
  public_named-Settles (some name) = public_user-Settles (find w.users name)

  pub public_profile-Settles : (req : Request) → Settles Shows (public_profile w req)
  unfolding public_profile
  public_profile-Settles req = elim (Bool-cases (method_is req (codes "POST"))) [
    | inr other ↦ rw other (shown _ refl)
    | inl post ↦ rw post (
        Settles-bind (Fits 64) Shows _ _
          (get_form_value-Settles (c_str req.stdin_buf) (codes "username") 64)
          (λ name _. public_named-Settles name))
  ]

  pub user_stats-Settles : (req : Request) → Settles Shows (user_stats w req)
  unfolding user_stats
  user_stats-Settles req =
      with_session Shows (get_session_id req) (λ found. respond 256 (stats_text w found))
        (λ found. responded 256 (stats_text w found) (omega arith))

  delete_session-Ends : (found : Option ℕ) → Settles Ends (ok (delete_session w found))
  unfolding delete_session
  delete_session-Ends none = same _ refl
  delete_session-Ends (some i) =
      let uid = user_of w.sessions i in
      elim (Bool-cases (uid == 0)) [
        | inl guest_user ↦ rw guest_user (same _ refl)
        | inr known ↦ rw known (
            same-Settles (record w { users = (delete w.users uid).1 }) _
              (record { sessions = g.sessions; users = delete-AreUsers w.users uid g.users }) refl)
      ]

  pub user_delete-Settles : (req : Request) → Settles Ends (user_delete w req)
  unfolding user_delete
  user_delete-Settles req = elim (Bool-cases (method_is req (codes "POST"))) [
    | inr other ↦ rw other (same _ refl)
    | inl post ↦ rw post (
        with_session Ends (get_session_id req) (λ found. ok (delete_session w found))
          delete_session-Ends)
  ]

  pub leaderboard-Settles : (req : Request) → Settles Shows (leaderboard w req)
  unfolding leaderboard
  leaderboard-Settles req = elim (Bool-cases (method_is req (codes "GET"))) [
    | inr other ↦ rw other (shown _ refl)
    | inl get ↦ rw get (responded 2048 (board_text (top_ten [] w.users.pool)) (omega arith))
  ]
