-- ===== src/Router/Safe/Sizes.antt =====
-- How long the texts of the handlers can be.
use compuguessr.Base.{
  ℕ, ◌+◌, ◌*◌, ◌≤◌, ◌≡◌, refl, false, List, [], ◌∷◌, ◌++◌, Returns, arith, length, length-append,
  length-take, take, ltb,
}
use compuguessr.Base.Text.{codes, c_str}
use compuguessr.UserDb.{UserEntry}
use compuguessr.Router.Board.{board_entry}
use compuguessr.Router.Profile.{respond, more_hashes, append_hashes, profile_text, public_text}
use compuguessr.Router.Replies.{ok_json}
use compuguessr.Router.Text.{json_escape, escape_char, utoa, append_uint, append_json_escaped}
use compuguessr.Router.Text.Decimal.{length-utoa_digits}
use compuguessr.Router.Safe.{IsUser}

pub length-json_escape : (s : List ℕ) → length (json_escape s) ≤ 2 * length s
unfolding json_escape escape_char
length-json_escape [] = omega arith
length-json_escape (c ∷ s) =
    let one : length (escape_char c) ≤ 2 = ground arith in
    omega (arith, one, length-append (escape_char c) (json_escape s), length-json_escape s)

pub length-utoa : (n : ℕ) → length (utoa n) ≤ 20
length-utoa n = omega (arith, length-utoa_digits 20 n [])

pub appended : (p q : List ℕ) (m n : ℕ) → length p ≤ m → length q ≤ n → length (p ++ q) ≤ m + n
appended p q m n hp hq = omega (arith, length-append p q)

-- What fits its buffer is sent.
pub respond-Returns :
    (size : ℕ) (p : List ℕ) → length p ≤ size → Returns (respond size p) (λ body. body ≡ p)
respond-Returns size p h =
    let fits : ltb size (length p) ≡ false = ground arith in (p, rw fits refl, refl)

length-more_hashes : (hs p : List ℕ) → length (more_hashes p hs) ≤ length p + 23 * length hs
unfolding more_hashes
length-more_hashes [] p = omega arith
length-more_hashes (h ∷ hs) p =
    let p' = p ++ codes "," ++ codes "\"" in
    let one =
      appended (p' ++ utoa h) (codes "\"") (length p + 2 + 20) 1
        (appended p' (utoa h) (length p + 2) 20
          (omega (arith, length-append (p ++ codes ",") (codes "\""), length-append p (codes ",")))
          (length-utoa h))
        (omega arith) in
    omega (arith, one, length-more_hashes hs ((p' ++ utoa h) ++ codes "\""))

length-append_hashes : (hs p : List ℕ) → length (append_hashes p hs) ≤ length p + 23 * length hs
unfolding append_hashes
length-append_hashes [] p = omega arith
length-append_hashes (h ∷ hs) p =
    let quoted = p ++ codes "\"" in
    let one =
      appended (quoted ++ utoa h) (codes "\"") (length p + 1 + 20) 1
        (appended quoted (utoa h) (length p + 1) 20 (omega (arith, length-append p (codes "\"")))
          (length-utoa h))
        (omega arith) in
    omega (arith, one, length-more_hashes hs ((quoted ++ utoa h) ++ codes "\""))

module _ (u : UserEntry) (g : IsUser u) where
  name_size : length (json_escape (c_str u.username)) ≤ 62
  name_size = omega (arith, length-json_escape (c_str u.username), g.name)

  text_size : length (json_escape (c_str u.description)) ≤ 4094
  text_size = omega (arith, length-json_escape (c_str u.description), g.text)

  hashes_size : length (take u.completed_count u.completed_hashes) ≤ 32
  hashes_size = omega (arith, length-take u.completed_count u.completed_hashes, g.room.few)

  -- A profile fits its buffer of 8192 bytes.
  pub length-profile_text : length (profile_text u) ≤ 8192
  unfolding profile_text
  length-profile_text =
      let p₁ =
        append_json_escaped (ok_json ++ codes "{\"status\":\"success\",\"username\":\"")
          u.username in
      let p₂ = append_uint (p₁ ++ codes "\",\"is_guest\":false,\"total_points\":") u.total_points in
      let p₃ = append_uint (p₂ ++ codes ",\"completed_count\":") u.completed_count in
      let p₄ = append_json_escaped (p₃ ++ codes ",\"description\":\"") u.description in
      let p₅ = p₄ ++ codes "\",\"completed_hashes\":[" in
      let hs = take u.completed_count u.completed_hashes in
      let h₁ =
        appended (ok_json ++ codes "{\"status\":\"success\",\"username\":\"")
          (json_escape (c_str u.username)) 138 62 (omega arith) name_size in
      let h₂ =
        appended (p₁ ++ codes "\",\"is_guest\":false,\"total_points\":") (utoa u.total_points) 280
          20 (appended p₁ (codes "\",\"is_guest\":false,\"total_points\":") 200 80 h₁ (omega arith))
          (length-utoa u.total_points) in
      let h₃ =
        appended (p₂ ++ codes ",\"completed_count\":") (utoa u.completed_count) 380 20
          (appended p₂ (codes ",\"completed_count\":") 300 80 h₂ (omega arith))
          (length-utoa u.completed_count) in
      let h₄ =
        appended (p₃ ++ codes ",\"description\":\"") (json_escape (c_str u.description)) 480 4094
          (appended p₃ (codes ",\"description\":\"") 400 80 h₃ (omega arith)) text_size in
      let h₅ = appended p₄ (codes "\",\"completed_hashes\":[") 4574 80 h₄ (omega arith) in
      let h₆ = length-append_hashes hs p₅ in
      let h₇ =
        appended (append_hashes p₅ hs) (codes "]}") 5400 2 (omega (arith, h₅, h₆, hashes_size))
          (omega arith) in
      omega (arith, h₇)

  -- So does the part that others see.
  pub length-public_text : length (public_text u) ≤ 8192
  unfolding public_text
  length-public_text =
      let start = ok_json ++ codes "{\"status\":\"success\",\"username\":\"" in
      let p₁ = append_json_escaped start u.username in
      let p₂ = append_uint (p₁ ++ codes "\",\"total_points\":") u.total_points in
      let p₃ = append_uint (p₂ ++ codes ",\"completed_count\":") u.completed_count in
      let h₁ = appended start (json_escape (c_str u.username)) 138 62 (omega arith) name_size in
      let h₂ =
        appended (p₁ ++ codes "\",\"total_points\":") (utoa u.total_points) 280 20
          (appended p₁ (codes "\",\"total_points\":") 200 80 h₁ (omega arith))
          (length-utoa u.total_points) in
      let h₃ =
        appended (p₂ ++ codes ",\"completed_count\":") (utoa u.completed_count) 380 20
          (appended p₂ (codes ",\"completed_count\":") 300 80 h₂ (omega arith))
          (length-utoa u.completed_count) in
      let h₄ =
        appended (p₃ ++ codes ",\"description\":\"") (json_escape (c_str u.description)) 480 4094
          (appended p₃ (codes ",\"description\":\"") 400 80 h₃ (omega arith)) text_size in
      let all = (p₃ ++ codes ",\"description\":\"") ++ json_escape (c_str u.description) in
      omega (arith, h₄, length-append all (codes "\"}"))

  pub length-board_entry : (p : List ℕ) → length (board_entry p u) ≤ length p + 140
  length-board_entry p =
      let p₁ = append_json_escaped (p ++ codes "{\"username\":\"") u.username in
      let h₁ =
        appended (p ++ codes "{\"username\":\"") (json_escape (c_str u.username)) (length p + 20) 62
          (appended p (codes "{\"username\":\"") (length p) 20 (omega arith) (omega arith))
          name_size in
      let h₂ =
        appended (p₁ ++ codes "\",\"points\":") (utoa u.total_points) (length p + 100) 20
          (omega (arith, h₁, length-append p₁ (codes "\",\"points\":")))
          (length-utoa u.total_points) in
      let all = (p₁ ++ codes "\",\"points\":") ++ utoa u.total_points in
      omega (arith, h₂, length-append all (codes "}"))
