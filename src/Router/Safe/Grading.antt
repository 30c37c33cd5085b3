-- ===== src/Router/Safe/Grading.antt =====
-- The check of the answers to a challenge ends and leaves both databases well formed.
use compuguessr.Base.{
  ℕ, ◌≡◌, refl, inl, inr, Bool, not, ◌&&◌, Option, none, some, List, [], ◌∷◌, ◌++◌, ok, ◌>>=◌,
  arith, length, take, get_or, ◌==◌, ltb, Bool-cases,
}
use compuguessr.Base.Search.{find_index}
use compuguessr.Base.Text.{codes, c_str}
use compuguessr.Challenges.{Challenge, Question}
use compuguessr.Challenges.Search.{IsSorted, id_matches, find-scan, nothing}
use compuguessr.Request.{Request}
use compuguessr.UserDb.{find_by_id}
use compuguessr.Util.Hash.{Crc, hash_str}
use compuguessr.Router.Profile.{World, method_is, respond, user_of}
use compuguessr.Router.Text.{get_session_id, utoa}
use compuguessr.Router.Verify.{
  grade, is_correct, total_earned, settle, award_user, verify_text, verify_challenge, verify_id,
  verify_session, challenge_verify,
}
use compuguessr.Router.Safe.{AreUsers, IsWorld, Settles, Settles-bind, respond-Settles}
use compuguessr.Router.Safe.Edits.{find_by_id-IsAccount, award_user-AreUsers}
use compuguessr.Router.Safe.Forms.{Fits, get_form_value-Settles}
use compuguessr.Router.Safe.Handlers.{with_session}
use compuguessr.Router.Safe.Sessions.{Ends, ends, same-Settles}

abbrev Marks : List (Question × Bool) → Type 0
Marks graded = Unit {0}

grade-Settles : (qs : List ℕ) (questions : List Question) → Settles Marks (grade qs questions)
unfolding grade
grade-Settles qs [] = inr ([], refl, tt)
grade-Settles qs (q ∷ questions) =
    Settles-bind (Fits 256) Marks _ _ (get_form_value-Settles qs (codes "q" ++ utoa q.id) 256)
      (λ submitted _.
        Settles-bind Marks Marks _ _ (grade-Settles qs questions)
          (λ rest _. inr ((q, is_correct q.answer submitted) ∷ rest, refl, tt)))

module _ (hw : Crc) (table : List Challenge) (sorted : IsSorted table) (w : World)
    (g : IsWorld w) where
  awarded :
      (uid earned hash : ℕ) (k : Option ℕ)
      → find_by_id w.users uid ≡ k
      → AreUsers (award_user w.users k earned hash)
  unfolding award_user
  awarded uid earned hash none e = g.users
  awarded uid earned hash (some k) e =
      award_user-AreUsers w.users k g.users (find_by_id-IsAccount w.users uid k g.users.valid e)
        earned hash

  pub settle-IsWorld :
      (uid : ℕ) (chal_id : List ℕ) (chal : Challenge) (graded : List (Question × Bool))
      → IsWorld (settle hw table w uid chal_id chal graded)
  unfolding settle
  settle-IsWorld uid chal_id chal graded =
      let earned = total_earned 0 graded in
      elim (Bool-cases (earned == chal.total_points && not (uid == 0))) [
        | inl full ↦ rw full (record {
          sessions = g.sessions;
          users = awarded uid earned (hash_str hw (c_str chal_id)) (find_by_id w.users uid) refl;
        })
        | inr less ↦ rw less g
      ]

  graded-Settles :
      (uid : ℕ) (chal_id : List ℕ) (chal : Challenge) (graded : List (Question × Bool))
      → Settles Ends (
          respond 4096 (verify_text chal graded) >>= λ body.
          ok (settle hw table w uid chal_id chal graded, body))
  graded-Settles uid chal_id chal graded =
      Settles-bind _ Ends _ _ (respond-Settles 4096 (verify_text chal graded)) (λ body sent.
        ends (settle hw table w uid chal_id chal graded) body
          (settle-IsWorld uid chal_id chal graded) (rw sent.0 (omega (arith, sent.1))))

  verify_challenge-Settles :
      (req : Request) (uid : ℕ) (chal_id : List ℕ) (c : Option ℕ)
      → Settles Ends (verify_challenge hw table w req uid chal_id c)
  unfolding verify_challenge
  verify_challenge-Settles req uid chal_id none = same-Settles w _ g refl
  verify_challenge-Settles req uid chal_id (some c) =
      let chal = get_or table c nothing in
      elim (Bool-cases (ltb (length chal.questions) chal.question_count)) [
        | inl over ↦ inl (rw over refl)
        | inr inside ↦ rw inside (
            Settles-bind Marks Ends _ _
              (grade-Settles (c_str req.stdin_buf) (take chal.question_count chal.questions))
              (λ graded _. graded-Settles uid chal_id chal graded))
      ]

  verify_id-Settles :
      (req : Request) (uid : ℕ) (id : Option (List ℕ))
      → Settles Ends (verify_id hw table w req uid id)
  unfolding verify_id
  verify_id-Settles req uid none = same-Settles w _ g refl
  verify_id-Settles req uid (some chal_id) =
      rw (find-scan table sorted chal_id)
        (verify_challenge-Settles req uid chal_id (find_index (id_matches chal_id) table))

  verify_session-Settles :
      (req : Request) (found : Option ℕ) → Settles Ends (verify_session hw table w req found)
  unfolding verify_session
  verify_session-Settles req none = same-Settles w _ g refl
  verify_session-Settles req (some i) =
      Settles-bind (Fits 64) Ends _ _ (get_form_value-Settles (c_str req.stdin_buf) (codes "id") 64)
        (λ id _. verify_id-Settles req (user_of w.sessions i) id)

  pub challenge_verify-Settles : (req : Request) → Settles Ends (challenge_verify hw table w req)
  unfolding challenge_verify
  challenge_verify-Settles req = elim (Bool-cases (method_is req (codes "POST"))) [
    | inr other ↦ rw other (same-Settles w _ g refl)
    | inl post ↦ elim (Bool-cases (get_or req.session_id 0 0 == 0)) [
      | inl empty ↦ rw (post, empty) (same-Settles w _ g refl)
      | inr given ↦
          rw (post, given)
            (with_session w g Ends (get_session_id req) (verify_session hw table w req)
              (verify_session-Settles req))
    ]
  ]
