-- ===== src/Tests/Texts.antt =====
-- The texts of the router: forms, JSON, rankings and scores.
use compuguessr.Base.{
  ◌⊎◌, ℕ, ◌+◌, ◌*◌, ◌%◌, ◌^◌, ◌≡◌, refl, Bool, not, ◌&&◌, some, List, [], ◌∷◌, ◌++◌, arith,
  length-replicate, take,
}
use compuguessr.Base.Search.{count_if}
use compuguessr.Base.Text.{codes}
use compuguessr.UserDb.{UserEntry, zero_entry, is_idle}
use compuguessr.Router.Board.{top_ten}
use compuguessr.Router.Board.Rank.{IsRanked, ranking, top_ten-ranking}
use compuguessr.Router.Form.{get_form_value}
use compuguessr.Router.Form.Reading.{Fields, AreFields, form, lookup, reads, get_form_value_reads}
use compuguessr.Router.Text.{json_escape}
use compuguessr.Router.Text.Json.{printable, read_string, json_escape_read}
use compuguessr.Router.Verify.{award, record_hash}
use compuguessr.Router.Verify.Score.{HasRoom, knows, Records, record_hash-Records, award_repeats}

abbrev fields : Fields
fields = (codes "username", codes "ada l.") ∷ (codes "password", codes "a&b=c") ∷ []

fields-AreFields : AreFields fields
fields-AreFields = (
  refl,
  (omega arith, (omega arith, (omega arith, (omega arith, (omega arith, (omega arith, tt)))))),
  (refl, (omega arith, (omega arith, (omega arith, (omega arith, (omega arith, tt))))), tt),
)

get_form_value_reads_example :
    get_form_value (form fields) (codes "password") 64 ≡ reads (lookup (codes "password") fields) 64
get_form_value_reads_example =
    get_form_value_reads fields (codes "password") 64 fields-AreFields refl

abbrev quoted : List ℕ
quoted = codes "say \"hi\""

json_escape_read_example :
    read_string (json_escape quoted ++ b'"' ∷ codes ",") ≡ some (printable quoted, codes ",")
json_escape_read_example = json_escape_read quoted (codes ",")

abbrev scorer : ℕ → UserEntry
scorer points = record zero_entry { is_active = 1; total_points = points }

abbrev scorers : List UserEntry
scorers = scorer 10 ∷ zero_entry ∷ scorer 30 ∷ []

top_ten-ranking_example :
    (top_ten [] scorers ≡ take 10 (ranking [] scorers))
    × IsRanked (ranking [] scorers)
    × ((test : UserEntry → Bool)
        → count_if test (ranking [] scorers)
          ≡ count_if (λ (u : UserEntry). not (is_idle u) && test u) scorers)
top_ten-ranking_example = top_ten-ranking scorers

scorer-HasRoom : HasRoom (scorer 10)
scorer-HasRoom = record { sized = length-replicate 32 0; few = omega arith }

record_hash-Records_example : Records (scorer 10) 77 (record_hash (scorer 10) 77)
record_hash-Records_example = record_hash-Records (scorer 10) 77 scorer-HasRoom

award_repeats_example :
    let once = award (scorer 10) 50 77 in
    let twice = award once 50 77 in
    (once.total_points ≡ (10 + 50) % 2 ^ 32)
    × ((let u = scorer 10 in u.completed_count ≡ 32) ⊎ ((i : ℕ) × (knows once 77 ≡ some i)))
    × (twice ≡ record once { total_points = (10 + 2 * 50) % 2 ^ 32 })
award_repeats_example = award_repeats (scorer 10) 50 77 scorer-HasRoom
