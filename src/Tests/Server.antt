-- ===== src/Tests/Server.antt =====
-- The server at work: routes and handlers.
use compuguessr.Base.{
  some, ℕ, zero, suc, ◌≡◌, refl, false, bit_xor, none, List, [], ◌∷◌, ◌++◌, ok, arith,
  length-replicate, get_or-replicate, replicate,
}
use compuguessr.Base.Text.{codes, c_str, write}
use compuguessr.Challenges.{Challenge}
use compuguessr.Challenges.Search.{IsSorted}
use compuguessr.Fastcgi.Parse.{Buffer}
use compuguessr.Fastcgi.Write.Sent.{IsTx, sent}
use compuguessr.Hashmap.{Map}
use compuguessr.Hashmap.Delete.{fresh-IsValid}
use compuguessr.Hashmap.Lookup.{view}
use compuguessr.Request.{Request}
use compuguessr.SessionDb.{drawn, claimed, entry_get, session_id_get}
use compuguessr.SessionDb.Invariant.{entry_at}
use compuguessr.Fastcgi.Params.{handle_params}
use compuguessr.Router.Account.{open_session}
use compuguessr.Router.Account.Cookie.{cookie, here}
use compuguessr.Router.Account.Remembered.{cookie_param, session_comes_back}
use compuguessr.Router.Text.{get_session_id, utoa_digits, div10_u64}
use compuguessr.SessionDb.Invariant.{empty, empty-IsValid, empty-unused}
use compuguessr.UserDb.{new_file, zero_entry}
use compuguessr.UserDb.Invariant.{new_file-IsValid}
use compuguessr.Util.Hash.{Crc, hash_str, hash_words, hash_bytes}
use compuguessr.Util.Memory.{memcmp_avx2, memcmp_blocks, memcmp}
use compuguessr.Router.Account.{Moment, auth_guest}
use compuguessr.Router.Profile.{World, method_is}
use compuguessr.Router.Replies.{needs_post}
use compuguessr.Router.Routes.{register, call, call_at, end_uri, reply}
use compuguessr.Router.Routes.Answer.{serve, whole_reply, reply-sends}
use compuguessr.Router.Routes.Table.{routed, map_init-HasRoutes}
use compuguessr.Router.Safe.{IsWorld, IsReady, Settles}
use compuguessr.Router.Safe.Calls.{call-Settles}
use compuguessr.Router.Safe.Replying.{IsRouting}
use compuguessr.Router.Safe.Sessions.{Ends}
use compuguessr.Base.{◌≤◌, length, get_or}
use compuguessr.Challenges.Search.{nothing}
use compuguessr.Router.Safe.Graded.{IsModest, text_room, asked as graded_questions}
use compuguessr.Router.Safe.Within.{HasCredentials}
use compuguessr.Router.Safe.Answered.{to_register, call-Returns}
use compuguessr.Router.Form.{
  get_form_value, find_value, after_key, next_field, decode, hex_byte, fits_in,
}
use compuguessr.Base.{Returns}
use mathlib.Core.Bool.{false}

-- Some function of sum and data.
abbrev pub sums : Crc
sums = record { crc32_u64 = bit_xor; crc32_u8 = bit_xor }

-- A table of one challenge.
abbrev pub table : List Challenge
table =
    record { id_string = codes "fuzzer-001"; total_points = 50; question_count = 0; questions = [] }
    ∷ []

pub table-IsSorted : IsSorted table
table-IsSorted zero zero lt small = absurd (omega arith)
table-IsSorted zero (suc j) lt small = absurd (omega arith)
table-IsSorted (suc i) j lt small = absurd (omega arith)

abbrev pub route_map : Map
route_map = (map_init-HasRoutes sums).0

pub route_map-IsRouting : IsRouting sums table table-IsSorted route_map
route_map-IsRouting =
    let (m, e, (valid, reads)) = map_init-HasRoutes sums in record { valid = valid; reads = reads }

abbrev pub world : World
world = record { sessions = empty; users = new_file }

pub world-IsWorld : IsWorld world
world-IsWorld = record {
  sessions = empty-IsValid;
  users = record {
    valid = new_file-IsValid;
    each = λ k lt busy. absurd (ground (arith, get_or-replicate 1024 k zero_entry));
  };
}

abbrev pub moment : Moment
moment = record { draw = drawn 8 77; now = 1000; stale = 0 }

nothing_open : (q : ℕ) → view empty.map q ≡ none
unfolding empty
nothing_open q = (fresh-IsValid 4096 (record { log = 12; power = refl; fits = omega arith })).1 q

pub world-IsReady : IsReady world moment
world-IsReady = record { new = nothing_open _; roomy = omega (arith, empty-unused) }

abbrev signing_up : Request
signing_up = record {
  uri = write (replicate 128 0) 0 (codes "/api/auth/guest");
  method = codes "GET" ++ (0 ∷ 0 ∷ 0 ∷ 0 ∷ 0 ∷ 0 ∷ 0 ∷ 0 ∷ 0 ∷ 0 ∷ 0 ∷ 0 ∷ 0 ∷ []);
  session_id = replicate 32 0;
  req_id = 1;
  keep_alive = 1;
  stdin_len = 30;
  stdin_buf = write (replicate 4096 0) 0 (codes "username=ada&password=lovelace");
}

call-Settles_example : Settles Ends (call sums table register world signing_up moment)
call-Settles_example =
    call-Settles sums table register world signing_up moment table-IsSorted world-IsWorld
      world-IsReady

session_comes_back_example :
    (w' : World) × (open_session world 9 moment ≡ ok (w', 77))
    × (req' : Request) × (handle_params signing_up (cookie_param (cookie 77 [])) 23 ≡ ok req')
    × (i : ℕ) × (entry_get w'.sessions (get_session_id req') ≡ ok (some i))
    × (entry_at w'.sessions i ≡ claimed 77 9 1000)
unfolding session_id_get utoa_digits div10_u64
session_comes_back_example =
    session_comes_back world 9 moment signing_up [] world-IsWorld world-IsReady (omega arith)
      (omega arith) (length-replicate 32 0) here (omega arith)

-- The same form, by the method POST.
abbrev posting : Request
posting = record signing_up { method = codes "POST" ++ replicate 12 0 }

posting-HasCredentials : HasCredentials posting
unfolding get_form_value find_value after_key next_field decode hex_byte fits_in c_str write
    replicate
posting-HasCredentials = record {
  username = (some (codes "ada"), refl, tt);
  password = (some (codes "lovelace"), refl, tt);
}

no_more : (c : ℕ) → let chal = get_or table c nothing in chal.question_count ≤ length chal.questions
no_more zero = omega arith
no_more (suc c) = omega arith

no_text : (c : ℕ) → text_room (graded_questions (get_or table c nothing)) ≤ 3700
no_text zero = omega arith
no_text (suc c) = omega arith

table-IsModest : IsModest table
table-IsModest = record { counted = no_more; roomy = no_text }

call-Returns_example : Returns (call sums table register world posting moment) Ends
call-Returns_example =
    call-Returns sums table register world posting moment table-IsSorted table-IsModest
      (to_register posting-HasCredentials) world-IsWorld world-IsReady

abbrev pub memory : Buffer
memory = record { address = 48; buf = replicate 65790 0; len = 65790; valid = 0; pos = 0 }

pub memory-IsTx : IsTx memory
memory-IsTx = record { sized = length-replicate 65790 0; filled = omega arith; small = omega arith }

not_post : method_is (end_uri signing_up) (codes "POST") ≡ false
unfolding memcmp_avx2 memcmp_blocks memcmp
not_post = refl

no_post : auth_guest world (end_uri signing_up) moment ≡ ok (world, needs_post)
unfolding auth_guest
no_post = rw (not_post, auth_guest) refl

signing_up_served :
    serve sums table
      (view route_map (hash_str sums (c_str (end_uri signing_up).uri)))
      world
      (end_uri signing_up)
      moment
    ≡ ok (world, needs_post)
unfolding hash_str hash_words hash_bytes routed call_at call auth_guest memcmp_avx2 write c_str
    replicate
signing_up_served =
    rw (route_map-IsRouting.reads (hash_str sums (c_str (end_uri signing_up).uri))) no_post

reply-sends_example :
    (tx' : Buffer) × (reply sums table route_map world memory signing_up moment
      ≡ ok (world, tx', end_uri signing_up))
    × IsTx tx'
    × (sent tx' ≡ whole_reply 1 needs_post)
    × (tx'.len ≡ 65790)
    × (tx'.pos ≡ 0)
reply-sends_example =
    reply-sends sums table route_map world world memory signing_up moment needs_post
      route_map-IsRouting.valid memory-IsTx signing_up_served (omega arith)
