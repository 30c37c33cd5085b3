-- ===== src/Challenges.antt =====
-- src/data/cg_challengedb.c and include/data/cg_challengedb_data.h: the search of the table of
-- challenges, which a script generates. The table is a list; its strings are lists of bytes.
pub mod Search
use compuguessr.Base.{
  ℕ, zero, suc, ◌+◌, ◌-◌, ◌/◌, ◌*◌, Bool, true, false, Option, none, some, List, Run, ok, fail,
  out_of_bounds, no_fuel, ◌>>=◌, length, get_elem?, ltb, if◌then◌else◌,
}
use compuguessr.Base.Int.{ℤ, pos, negsuc}
use compuguessr.Util.Memory.{strcmp, is_zero}

-- `type` and `answer` together.
pub data Answer : Type 0 where
  text : List ℕ → Answer
  bitmask : ℕ → Answer
  single : ℕ → Answer

pub record Question : Type 0 where
  pub id : ℕ
  pub points : ℕ
  pub answer : Answer
  pub explanation : List ℕ

pub record Challenge : Type 0 where
  pub id_string : List ℕ
  pub total_points : ℕ
  pub question_count : ℕ
  pub questions : List Question

abbrev pub is_negative : ℤ → Bool
is_negative (pos n) = false
is_negative (negsuc n) = true

abbrev pub at : List Challenge → ℕ → Run Challenge
at db i = elim (get_elem? db i) [ none ↦ fail out_of_bounds | some c ↦ ok c ]

-- The loop, with fuel. `limit` is `right + 1`, since `right` can be -1.
unfoldable pub search : ℕ → List Challenge → List ℕ → ℕ → ℕ → Run (Option ℕ)
search zero db id left limit = fail no_fuel
search (suc fuel) db id left limit =
    let mid = left + (limit - 1 - left) / 2 in
    let upper = search fuel db id (mid + 1) limit in
    let lower = search fuel db id left mid in
    let step : Challenge → Run (Option ℕ) = λ c.
      let cmp = strcmp c.id_string id in
      if is_zero cmp then ok (some mid) else if is_negative cmp then upper else lower in
    let round = at db mid >>= step in if ltb left limit then round else ok none

-- Each round narrows the range, so one round more than there are challenges is enough.
unfoldable pub find : List Challenge → List ℕ → Run (Option ℕ)
unfolding search
find db id = search (length db + 1) db id 0 (length db)
