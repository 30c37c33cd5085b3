-- ===== src/Router/Verify.antt =====
-- `cg_route_api_challenge_verify` of src/services/cg_router.c.
pub mod Score
use compuguessr.Base.{
  ℕ, zero, suc, ◌+◌, ◌-◌, ◌*◌, min, Bool, true, false, not, ◌&&◌, Option, none, some, List, [], ◌∷◌,
  ◌++◌, Run, ok, fail, out_of_bounds, ◌>>=◌, length, take, get_or, set, ◌==◌, ltb, if◌then◌else◌,
}
use compuguessr.Base.Search.{find_index}
use compuguessr.Base.Text.{codes, c_str}
use compuguessr.Base.Words.{u32}
use compuguessr.Challenges
use compuguessr.Challenges.{Challenge, Question, Answer, text, bitmask, single}
use compuguessr.Request.{Request}
use compuguessr.SessionDb.{SessionDb, entry_get}
use compuguessr.UserDb.{UserDb, UserEntry, find_by_id}
use compuguessr.Util.Hash.{Crc, hash_str}
use compuguessr.Util.Memory.{same_str}
use compuguessr.Router.Form.{get_form_value}
use compuguessr.Router.Text.{append_str, append_uint, utoa, is_digit, get_session_id}
use compuguessr.Router.Replies.{ok_json, needs_post, unauthorized, bad_request, missing}
use compuguessr.Router.Profile.{World, method_is, respond, user_of, user_at}

-- The loop over `submitted_val`, with the sum so far: what is not a digit is passed over.
unfoldable pub parse_answer : ℕ → List ℕ → ℕ
parse_answer sum [] = sum
parse_answer sum (c ∷ cs) =
    parse_answer (if is_digit c then u32 (u32 (sum * 10) + (c - 48)) else sum) cs

unfoldable pub is_correct : Answer → Option (List ℕ) → Bool
unfolding parse_answer
is_correct answer none = false
is_correct (text expected) (some submitted) = same_str submitted expected
is_correct (bitmask n) (some submitted) = parse_answer 0 (c_str submitted) == n
is_correct (single n) (some submitted) = parse_answer 0 (c_str submitted) == n

-- The answers to the questions, in their order, from the fields `q1`, `q2` and so on.
unfoldable pub grade : List ℕ → List Question → Run (List (Question × Bool))
unfolding is_correct
grade qs [] = ok []
grade qs (q ∷ questions) = get_form_value qs (codes "q" ++ utoa q.id) 256 >>= λ submitted.
    grade qs questions >>= λ rest. ok ((q, is_correct q.answer submitted) ∷ rest)

-- `total_earned`, with the sum so far.
unfoldable pub total_earned : ℕ → List (Question × Bool) → ℕ
total_earned sum [] = sum
total_earned sum ((q, correct) ∷ rest) =
    total_earned (if correct then u32 (sum + q.points) else sum) rest

abbrev pub result_text : List ℕ → Question → Bool → List ℕ
result_text p q correct =
    append_str
      (append_uint
          (append_uint (p ++ codes "{\"id\":") q.id
            ++ codes ",\"correct\":"
            ++ (if correct then codes "true" else codes "false")
            ++ codes ",\"earned\":")
          (if correct then q.points else 0)
        ++ codes ",\"explanation\":\"")
      q.explanation
    ++ codes "\"}"

unfoldable pub more_results : List ℕ → List (Question × Bool) → List ℕ
more_results p [] = p
more_results p ((q, correct) ∷ rest) = more_results (result_text (p ++ codes ",") q correct) rest

unfoldable pub results_text : List ℕ → List (Question × Bool) → List ℕ
unfolding more_results
results_text p [] = p
results_text p ((q, correct) ∷ rest) = more_results (result_text p q correct) rest

unfoldable pub verify_text : Challenge → List (Question × Bool) → List ℕ
unfolding results_text total_earned
verify_text chal graded =
    let head =
      ok_json ++ codes "{\"status\":\"success\",\"message\":\"Payload evaluated.\",\"results\":[" in
    append_uint
      (append_uint (results_text head graded ++ codes "],\"total_earned\":") (total_earned 0 graded)
        ++ codes ",\"max_points\":")
      chal.total_points
    ++ codes "}"

-- The hash is kept once, while there is room for it.
unfoldable pub record_hash : UserEntry → ℕ → UserEntry
record_hash u hash =
    elim (find_index (λ h. h == hash) (take (min u.completed_count 32) u.completed_hashes)) [
      | some _ ↦ u
      | none ↦
          if ltb u.completed_count 32
          then record u {
            completed_hashes = set u.completed_hashes u.completed_count hash;
            completed_count = u.completed_count + 1;
          }
          else u
    ]

-- What a full score does to the account.
unfoldable pub award : UserEntry → ℕ → ℕ → UserEntry
unfolding record_hash
award u earned hash = record_hash (record u { total_points = u32 (u.total_points + earned) }) hash

unfoldable pub award_user : UserDb → Option ℕ → ℕ → ℕ → UserDb
unfolding award
award_user users none earned hash = users
award_user users (some k) earned hash = record users {
  pool = set users.pool k (award (user_at users k) earned hash);
}

module _ (hw : Crc) (table : List Challenge) where
  -- With the answers graded; `uid` is the user of the session.
  unfoldable pub settle : World → ℕ → List ℕ → Challenge → List (Question × Bool) → World
  unfolding award_user total_earned
  settle w uid chal_id chal graded =
      let earned = total_earned 0 graded in
      if earned == chal.total_points && not (uid == 0)
      then record w {
        users = award_user w.users (find_by_id w.users uid) earned (hash_str hw (c_str chal_id));
      }
      else w

  unfoldable pub verify_challenge : World → Request → ℕ → List ℕ → Option ℕ → Run (World × List ℕ)
  unfolding grade settle verify_text
  verify_challenge w req uid chal_id none = ok (w, missing (codes "404 - Challenge ID not found."))
  verify_challenge w req uid chal_id (some c) =
      let chal =
        get_or table c
          (record { id_string = []; total_points = 0; question_count = 0; questions = [] }) in
      if ltb (length chal.questions) chal.question_count
      then fail out_of_bounds
      else grade (c_str req.stdin_buf) (take chal.question_count chal.questions) >>= λ graded.
          respond 4096 (verify_text chal graded) >>= λ body.
          ok (settle w uid chal_id chal graded, body)

  unfoldable pub verify_id : World → Request → ℕ → Option (List ℕ) → Run (World × List ℕ)
  unfolding verify_challenge
  verify_id w req uid none = ok (w, bad_request (codes "400 - Missing challenge ID."))
  verify_id w req uid (some chal_id) =
      Challenges.find table chal_id >>= verify_challenge w req uid chal_id

  unfoldable pub verify_session : World → Request → Option ℕ → Run (World × List ℕ)
  unfolding verify_id
  verify_session w req none = ok (w, unauthorized (codes "401 - Invalid session."))
  verify_session w req (some i) =
      get_form_value (c_str req.stdin_buf) (codes "id") 64
      >>= verify_id w req (user_of w.sessions i)

  -- `cg_route_api_challenge_verify`
  unfoldable pub challenge_verify : World → Request → Run (World × List ℕ)
  unfolding verify_session
  challenge_verify w req =
      if not (method_is req (codes "POST"))
      then ok (w, needs_post)
      else if get_or req.session_id 0 0 == 0
      then ok (w, unauthorized (codes "401 - Missing session."))
      else entry_get w.sessions (get_session_id req) >>= verify_session w req
