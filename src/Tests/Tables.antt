-- ===== src/Tests/Tables.antt =====
-- The table of challenges and the pool of clients.
use compuguessr.Base.{ℕ, zero, suc, ◌≡◌, refl, List, [], ◌∷◌, ok, arith}
use compuguessr.Base.Int.{negsuc}
use compuguessr.Base.Search.{find_index}
use compuguessr.Base.Text.{codes}
use compuguessr.Util.Memory.{strcmp}
use compuguessr.Challenges.{Challenge, find}
use compuguessr.Challenges.Search.{IsSorted, id_matches, find-scan}
use compuguessr.Fastcgi.Parse.{Buffer}
use compuguessr.Clients.{ClientState, Client, free_state, in_use}

abbrev challenge : List ℕ → Challenge
challenge id = record { id_string = id; total_points = 50; question_count = 0; questions = [] }

abbrev table : List Challenge
table =
    challenge (codes "fuzzer-001")
    ∷ challenge (codes "fuzzer-002")
    ∷ challenge (codes "protocol-001")
    ∷ []

table-IsSorted : IsSorted table
unfolding strcmp
table-IsSorted zero zero lt small = absurd (omega arith)
table-IsSorted zero (suc zero) lt small = refl
table-IsSorted zero (suc (suc zero)) lt small = refl
table-IsSorted (suc zero) (suc (suc zero)) lt small = refl
table-IsSorted (suc i) zero lt small = absurd (omega arith)
table-IsSorted (suc i) (suc zero) lt small = absurd (omega arith)
table-IsSorted (suc (suc i)) (suc (suc zero)) lt small = absurd (omega arith)
table-IsSorted i (suc (suc (suc j))) lt small = absurd (omega arith)

find-scan_example :
    find table (codes "protocol-001") ≡ ok (find_index (id_matches (codes "protocol-001")) table)
find-scan_example = find-scan table table-IsSorted (codes "protocol-001")

abbrev buffer : Buffer
buffer = record { address = 0; buf = []; len = 0; valid = 0; pos = 0 }

abbrev client : ClientState → Client
client s = record {
  state = s;
  fcgi = record {
    state = 0;
    saved_hdr = record {
      version = 0;
      type = 0;
      request_id = 0;
      content_len = 0;
      padding_len = 0;
      reserved = 0;
    };
    sockfd = negsuc 0;
    rx = buffer;
    tx = buffer;
  };
  req = record {
    uri = [];
    method = [];
    session_id = [];
    req_id = 0;
    keep_alive = 0;
    stdin_len = 0;
    stdin_buf = [];
  };
}

abbrev pool : List Client
pool = client in_use ∷ client free_state ∷ client free_state ∷ []
