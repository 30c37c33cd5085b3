-- ===== src/Router/Safe/Answered.antt =====
-- What each handler asks of the form of a request.
use compuguessr.Base.{
  ℕ, ◌≡◌, refl, inl, inr, Option, none, some, List, ok, Returns, arith, ◌==◌, Bool-cases,
}
use compuguessr.Base.Text.{codes}
use compuguessr.Challenges.{Challenge}
use compuguessr.Request.{Request}
use compuguessr.UserDb.{find, find_by_id}
use compuguessr.Util.Hash.{Crc}
use compuguessr.Router.Account.{Moment}
use compuguessr.Router.Profile.{
  World, method_is, user_of, user_at, update_described, update_user, update_session, profile_update,
  public_text, public_user, public_named, public_profile,
}
use compuguessr.Router.Routes.{
  Handler, guest, register, login, profile, update, public_page, stats, remove, board, verify, call,
}
use compuguessr.Router.Text.{get_session_id}
use compuguessr.Router.Safe.{IsWorld, IsReady}
use compuguessr.Router.Safe.Bounded.{
  Shows, said, sent, found-Returns, user_profile-Returns, user_stats-Returns, leaderboard-Returns,
}
use compuguessr.Router.Safe.Edits.{find_by_id-IsAccount, find-IsAccount, describe-AreUsers}
use compuguessr.Router.Safe.Formless.{
  kept-Returns, same-Returns, user_delete-Returns, auth_guest-Returns,
}
use compuguessr.Router.Safe.Sessions.{Ends}
use compuguessr.Challenges.Search.{IsSorted}
use compuguessr.Router.Safe.Graded.{IsModest, HasAnswers, challenge_verify-Returns}
use compuguessr.Router.Safe.Sizes.{length-public_text}
use compuguessr.Router.Safe.Within.{
  IsReadable, HasCredentials, auth_register-Returns, auth_login-Returns,
}

module _ (w : World) (g : IsWorld w) (req : Request) where
  update_described-Returns :
      (uid k : ℕ) (description : Option (List ℕ))
      → find_by_id w.users uid ≡ some k
      → Returns (ok (update_described w k description)) Ends
  unfolding update_described
  update_described-Returns uid k none e = same-Returns w g _ refl
  update_described-Returns uid k (some description) e =
      let a = find_by_id-IsAccount w.users uid k g.users.valid e in
      same-Returns (update_described w k (some description)).0
        (record {
          sessions = g.sessions;
          users = describe-AreUsers w.users k g.users a description;
        })
        _ refl

  update_user-Returns :
      (uid : ℕ) (found : Option ℕ)
      → IsReadable req (codes "description") 2048
      → find_by_id w.users uid ≡ found
      → Returns (update_user w req found) Ends
  unfolding update_user
  update_user-Returns uid none h e = same-Returns w g _ refl
  update_user-Returns uid (some k) h e =
      let (value, got, _) = h in rw got (update_described-Returns uid k value e)

  update_session-Returns :
      (found : Option ℕ)
      → IsReadable req (codes "description") 2048
      → Returns (update_session w req found) Ends
  unfolding update_session
  update_session-Returns none h = same-Returns w g _ refl
  update_session-Returns (some i) h =
      let uid = user_of w.sessions i in
      elim (Bool-cases (uid == 0)) [
        | inl guest_user ↦ rw guest_user (same-Returns w g _ refl)
        | inr known ↦ rw known (update_user-Returns uid (find_by_id w.users uid) h refl)
      ]

  profile_update-Returns :
      IsReadable req (codes "description") 2048 → Returns (profile_update w req) Ends
  unfolding profile_update
  profile_update-Returns h = elim (Bool-cases (method_is req (codes "POST"))) [
    | inr other ↦ rw other (same-Returns w g _ refl)
    | inl post ↦ rw post (
        found-Returns w g Ends (get_session_id req) (update_session w req)
          (λ found. update_session-Returns found h))
  ]

  public_user-Returns :
      (name : List ℕ) (k : Option ℕ) → find w.users name ≡ k → Returns (public_user w.users k) Shows
  unfolding public_user
  public_user-Returns name none e = said _ refl
  public_user-Returns name (some k) e =
      let a = find-IsAccount w.users name k g.users.valid e in
      let u = user_at w.users k in
      sent 8192 (public_text u) (omega arith) (length-public_text u (g.users.each k a.below a.busy))

  public_named-Returns : (name : Option (List ℕ)) → Returns (public_named w.users name) Shows
  unfolding public_named
  public_named-Returns none = said _ refl
  public_named-Returns (some name) = public_user-Returns name (find w.users name) refl

  public_profile-Returns :
      IsReadable req (codes "username") 64 → Returns (public_profile w req) Shows
  unfolding public_profile
  public_profile-Returns h = elim (Bool-cases (method_is req (codes "POST"))) [
    | inr other ↦ rw other (said _ refl)
    | inl post ↦ let (name, e, _) = h in rw (post, e) (public_named-Returns name)
  ]

-- What a handler asks of the form.
pub data IsAnswerable (table : List Challenge) (req : Request) : Handler → Type 0 where
  as_guest : IsAnswerable table req guest
  to_register : HasCredentials req → IsAnswerable table req register
  to_log_in : HasCredentials req → IsAnswerable table req login
  own_profile : IsAnswerable table req profile
  new_description : IsReadable req (codes "description") 2048 → IsAnswerable table req update
  other_profile : IsReadable req (codes "username") 64 → IsAnswerable table req public_page
  points : IsAnswerable table req stats
  to_leave : IsAnswerable table req remove
  best_ten : IsAnswerable table req board
  to_verify : HasAnswers table req → IsAnswerable table req verify

-- On well-formed databases, with a sorted table of challenges whose results fit a reply, a session
-- id that is not in use and room in the session map: every handler ends, on every request whose
-- form values fit the buffers that this handler reads them into, without leaving any buffer,
-- whatever the accounts hold; it leaves both databases well formed and sends at most 8192 bytes.
pub call-Returns :
    (hw : Crc) (table : List Challenge) (h : Handler) (w : World) (req : Request) (t : Moment)
    → IsSorted table
    → IsModest table
    → IsAnswerable table req h
    → IsWorld w
    → IsReady w t
    → Returns (call hw table h w req t) Ends
unfolding call
call-Returns hw table _ w req t sorted modest as_guest g ready = auth_guest-Returns w g req t ready
call-Returns hw table _ w req t sorted modest (to_register c) g ready =
    auth_register-Returns hw w t g ready req c
call-Returns hw table _ w req t sorted modest (to_log_in c) g ready =
    auth_login-Returns hw w t g ready req c
call-Returns hw table _ w req t sorted modest own_profile g ready =
    kept-Returns w g _ (user_profile-Returns w g req)
call-Returns hw table _ w req t sorted modest (new_description h) g ready =
    profile_update-Returns w g req h
call-Returns hw table _ w req t sorted modest (other_profile h) g ready =
    kept-Returns w g _ (public_profile-Returns w g req h)
call-Returns hw table _ w req t sorted modest points g ready =
    kept-Returns w g _ (user_stats-Returns w g req)
call-Returns hw table _ w req t sorted modest to_leave g ready = user_delete-Returns w g req
call-Returns hw table _ w req t sorted modest best_ten g ready =
    kept-Returns w g _ (leaderboard-Returns w g req)
call-Returns hw table _ w req t sorted modest (to_verify has) g ready =
    challenge_verify-Returns hw table sorted modest w g req has
