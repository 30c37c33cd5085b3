-- ===== src/Router/Safe/Graded.antt =====
-- The grading of answers, and its buffers.
use compuguessr.Base.{
  ℕ, ◌+◌, ◌≤◌, ◌≡◌, refl, inl, inr, Bool, false, Option, none, some, List, [], ◌∷◌, ◌++◌, Returns,
  arith, length, length-append, take, get_or, ltb, ◌==◌, Bool-cases, if◌then◌else◌,
}
use compuguessr.Base.Search.{find_index}
use compuguessr.Base.Text.{codes, c_str}
use compuguessr.Challenges.{Challenge, Question}
use compuguessr.Challenges.Search.{IsSorted, find-scan, id_matches, nothing}
use compuguessr.Request.{Request}
use compuguessr.Util.Hash.{Crc}
use compuguessr.Router.Profile.{World, method_is, user_of}
use compuguessr.Router.Replies.{ok_json}
use compuguessr.Router.Text.{get_session_id, utoa}
use compuguessr.Router.Verify.{
  is_correct, grade, total_earned, result_text, more_results, results_text, verify_text, settle,
  verify_challenge, verify_id, verify_session, challenge_verify,
}
use compuguessr.Router.Safe.{IsWorld}
use compuguessr.Router.Safe.Bounded.{found-Returns}
use compuguessr.Router.Safe.Formless.{same-Returns}
use compuguessr.Router.Safe.Grading.{settle-IsWorld}
use compuguessr.Router.Safe.Sessions.{Ends}
use compuguessr.Router.Safe.Sizes.{length-utoa, respond-Returns}
use compuguessr.Router.Safe.Within.{IsReadable}

-- What the results of the questions can take in a reply.
abbrev pub text_room : List Question → ℕ
text_room [] = 0
text_room (q ∷ questions) = length (c_str q.explanation) + 110 + text_room questions

abbrev questions_of : List (Question × Bool) → List Question
questions_of [] = []
questions_of ((q, correct) ∷ graded) = q ∷ questions_of graded

length-result_text :
    (p : List ℕ) (q : Question) (correct : Bool)
    → length (result_text p q correct) ≤ length p + length (c_str q.explanation) + 100
length-result_text p q correct =
    let mark : List ℕ = if correct then codes "true" else codes "false" in
    let h₀ : length mark ≤ 5 = ground arith in
    let earned = if correct then q.points else 0 in
    let p₁ = p ++ codes "{\"id\":" in
    let p₂ = p₁ ++ utoa q.id in
    let p₃ = p₂ ++ codes ",\"correct\":" in
    let p₄ = p₃ ++ mark in
    let p₅ = p₄ ++ codes ",\"earned\":" in
    let p₆ = p₅ ++ utoa earned in
    let p₇ = p₆ ++ codes ",\"explanation\":\"" in
    let p₈ = p₇ ++ c_str q.explanation in
    let h₁ : length p₃ ≤ length p + 38 = omega (
      arith,
      length-append p (codes "{\"id\":"),
      length-append p₁ (utoa q.id),
      length-utoa q.id,
      length-append p₂ (codes ",\"correct\":"),
    ) in
    let h₂ : length p₆ ≤ length p + 73 = omega (
      arith,
      h₁,
      h₀,
      length-append p₃ mark,
      length-append p₄ (codes ",\"earned\":"),
      length-append p₅ (utoa earned),
      length-utoa earned,
    ) in
    omega (
      arith,
      h₂,
      length-append p₆ (codes ",\"explanation\":\""),
      length-append p₇ (c_str q.explanation),
      length-append p₈ (codes "\"}"),
    )

length-more_results :
    (graded : List (Question × Bool)) (p : List ℕ)
    → length (more_results p graded) ≤ length p + text_room (questions_of graded)
unfolding more_results
length-more_results [] p = omega arith
length-more_results ((q, correct) ∷ graded) p =
    let next = p ++ codes "," in
    omega (
      arith,
      length-append p (codes ","),
      length-result_text next q correct,
      length-more_results graded (result_text next q correct),
    )

length-results_text :
    (graded : List (Question × Bool)) (p : List ℕ)
    → length (results_text p graded) ≤ length p + text_room (questions_of graded)
unfolding results_text
length-results_text [] p = omega arith
length-results_text ((q, correct) ∷ graded) p =
    omega
      (arith, length-result_text p q correct, length-more_results graded (result_text p q correct))

length-verify_text :
    (chal : Challenge) (graded : List (Question × Bool))
    → text_room (questions_of graded) ≤ 3700
    → length (verify_text chal graded) ≤ 4096
unfolding verify_text
length-verify_text chal graded room =
    let head =
      ok_json ++ codes "{\"status\":\"success\",\"message\":\"Payload evaluated.\",\"results\":[" in
    let start : length head ≤ 250 = omega arith in
    let p₁ = results_text head graded in
    let earned = utoa (total_earned 0 graded) in
    let p₂ = p₁ ++ codes "],\"total_earned\":" in
    let p₃ = p₂ ++ earned in
    let p₄ = p₃ ++ codes ",\"max_points\":" in
    let h₁ : length p₃ ≤ 4010 = omega (
      arith,
      start,
      room,
      length-results_text graded head,
      length-append p₁ (codes "],\"total_earned\":"),
      length-append p₂ earned,
      length-utoa (total_earned 0 graded),
    ) in
    omega (
      arith,
      h₁,
      length-append p₃ (codes ",\"max_points\":"),
      length-append p₄ (utoa chal.total_points),
      length-utoa chal.total_points,
      length-append (p₄ ++ utoa chal.total_points) (codes "}"),
    )

-- The answers to all of these questions fit.
abbrev pub AreReadable : Request → List Question → Type 0
AreReadable req [] = Unit {0}
AreReadable req (q ∷ questions) =
    IsReadable req (codes "q" ++ utoa q.id) 256 × AreReadable req questions

grade-Returns :
    (req : Request) (questions : List Question)
    → AreReadable req questions
    → Returns (grade (c_str req.stdin_buf) questions) (λ graded. questions_of graded ≡ questions)
unfolding grade
grade-Returns req [] r = ([], refl, refl)
grade-Returns req (q ∷ questions) ((submitted, e, _), r) =
    let (rest, e', same) = grade-Returns req questions r in
    rw (e, e') ((q, is_correct q.answer submitted) ∷ rest, refl, rw same refl)

-- The questions of a challenge as they are used.
abbrev pub asked : Challenge → List Question
asked c = take c.question_count c.questions

-- Each challenge has the questions that it counts, and what is said about them fits a reply.
pub record IsModest (table : List Challenge) : Type 0 where
  pub counted :
      (c : ℕ) → let chal = get_or table c nothing in chal.question_count ≤ length chal.questions
  pub roomy : (c : ℕ) → text_room (asked (get_or table c nothing)) ≤ 3700

-- The answers to whatever challenge is named.
pub record HasAnswers (table : List Challenge) (req : Request) : Type 0 where
  pub id : IsReadable req (codes "id") 64
  pub answers : (c : ℕ) → AreReadable req (asked (get_or table c nothing))

module _ (hw : Crc) (table : List Challenge) (sorted : IsSorted table) (modest : IsModest table)
    (w : World) (g : IsWorld w) (req : Request) (has : HasAnswers table req) where
  verify_challenge-Returns :
      (uid : ℕ) (chal_id : List ℕ) (c : Option ℕ)
      → Returns (verify_challenge hw table w req uid chal_id c) Ends
  unfolding verify_challenge
  verify_challenge-Returns uid chal_id none = same-Returns w g _ refl
  verify_challenge-Returns uid chal_id (some c) =
      let chal = get_or table c nothing in
      let inside : ltb (length chal.questions) chal.question_count ≡ false =
        ground (arith, modest.counted c) in
      let (graded, e, same) = grade-Returns req (asked chal) (has.answers c) in
      let fits = length-verify_text chal graded (rw same (modest.roomy c)) in
      let (body, replied, whole) = respond-Returns 4096 (verify_text chal graded) fits in
      rw (inside, e, replied)
        (
          (settle hw table w uid chal_id chal graded, body),
          refl,
          (
            settle-IsWorld hw table sorted w g uid chal_id chal graded,
            rw whole (omega (arith, fits)),
          ),
        )

  verify_id-Returns :
      (uid : ℕ) (id : Option (List ℕ)) → Returns (verify_id hw table w req uid id) Ends
  unfolding verify_id
  verify_id-Returns uid none = same-Returns w g _ refl
  verify_id-Returns uid (some chal_id) =
      rw (find-scan table sorted chal_id)
        (verify_challenge-Returns uid chal_id (find_index (id_matches chal_id) table))

  verify_session-Returns : (found : Option ℕ) → Returns (verify_session hw table w req found) Ends
  unfolding verify_session
  verify_session-Returns none = same-Returns w g _ refl
  verify_session-Returns (some i) =
      let (id, e, _) = has.id in rw e (verify_id-Returns (user_of w.sessions i) id)

  pub challenge_verify-Returns : Returns (challenge_verify hw table w req) Ends
  unfolding challenge_verify
  challenge_verify-Returns = elim (Bool-cases (method_is req (codes "POST"))) [
    | inr other ↦ rw other (same-Returns w g _ refl)
    | inl post ↦ elim (Bool-cases (get_or req.session_id 0 0 == 0)) [
      | inl empty ↦ rw (post, empty) (same-Returns w g _ refl)
      | inr given ↦
          rw (post, given)
            (found-Returns w g Ends (get_session_id req) (verify_session hw table w req)
              verify_session-Returns)
    ]
  ]
