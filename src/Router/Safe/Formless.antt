-- ===== src/Router/Safe/Formless.antt =====
-- The handlers for a guest and for the deletion of an account, and their buffers.
use compuguessr.Base.{
  ℕ, ◌≤◌, ◌≡◌, refl, inl, inr, true, Option, none, some, List, ◌++◌, Run, ok, Returns, arith,
  length, length-append, ◌==◌, leb, Bool-cases,
}
use compuguessr.Base.Text.{codes}
use compuguessr.Request.{Request}
use compuguessr.Router.Account.{Moment, auth_guest}
use compuguessr.Router.Profile.{World, method_is, user_of, delete_session, user_delete}
use compuguessr.Router.Replies.{set_cookie, guest_in}
use compuguessr.Router.Routes.{keep}
use compuguessr.Router.Text.{get_session_id, utoa}
use compuguessr.Router.Safe.{IsWorld, IsReady}
use compuguessr.Router.Safe.Bounded.{Shows, found-Returns}
use compuguessr.Router.Safe.Edits.{delete-AreUsers}
use compuguessr.Router.Safe.Sessions.{Ends, body_max, open_session-Returns}
use compuguessr.Router.Safe.Sizes.{length-utoa, respond-Returns}

module _ (w : World) (g : IsWorld w) where
  pub kept-Returns : (r : Run (List ℕ)) → Returns r Shows → Returns (keep w r) Ends
  kept-Returns r (body, e, short) = rw e ((w, body), refl, (g, short))

  pub same-Returns :
      (body : List ℕ) → leb (length body) body_max ≡ true → Returns (ok (w, body)) Ends
  same-Returns body short = ((w, body), refl, (g, ground arith))

  delete_session-Returns : (found : Option ℕ) → Returns (ok (delete_session w found)) Ends
  unfolding delete_session
  delete_session-Returns none = same-Returns _ refl
  delete_session-Returns (some i) =
      let uid = user_of w.sessions i in
      elim (Bool-cases (uid == 0)) [
        | inl guest_user ↦ rw guest_user (same-Returns _ refl)
        | inr known ↦ rw known (
          _,
          refl,
          (
            record { sessions = g.sessions; users = delete-AreUsers w.users uid g.users },
            omega arith,
          ),
        )
      ]

  pub user_delete-Returns : (req : Request) → Returns (user_delete w req) Ends
  unfolding user_delete
  user_delete-Returns req = elim (Bool-cases (method_is req (codes "POST"))) [
    | inr other ↦ rw other (same-Returns _ refl)
    | inl post ↦ rw post (
        found-Returns w g Ends (get_session_id req) (λ found. ok (delete_session w found))
          delete_session-Returns)
  ]

  length-guest_text : (sid : ℕ) → length (set_cookie ++ utoa sid ++ guest_in) ≤ 512
  length-guest_text sid =
      let start : length set_cookie ≤ 100 = omega arith in
      let end : length guest_in ≤ 100 = omega arith in
      omega (
        arith,
        start,
        end,
        length-append (set_cookie ++ utoa sid) guest_in,
        length-append set_cookie (utoa sid),
        length-utoa sid,
      )

  pub auth_guest-Returns :
      (req : Request) (t : Moment) → IsReady w t → Returns (auth_guest w req t) Ends
  unfolding auth_guest
  auth_guest-Returns req t ready = elim (Bool-cases (method_is req (codes "POST"))) [
    | inr other ↦ rw other (same-Returns _ refl)
    | inl post ↦
        let (opened, e, g') = open_session-Returns w 0 t g ready in
        let text = set_cookie ++ utoa opened.1 ++ guest_in in
        let (body, said, whole) = respond-Returns 512 text (length-guest_text opened.1) in
        rw (post, e, said)
          ((opened.0, body), refl, (g', rw whole (omega (arith, length-guest_text opened.1))))
  ]
