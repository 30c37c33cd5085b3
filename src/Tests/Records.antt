-- ===== src/Tests/Records.antt =====
-- The FastCGI records.
use compuguessr.Base.{
  ℕ, zero, suc, ◌+◌, ◌/◌, ◌%◌, ◌^◌, ◌<◌, ◌≡◌, refl, ◌⊎◌, Bool, true, ◌&&◌, List, [], ◌∷◌, ◌++◌,
  fail, no_fuel, Returns, arith, replicate, length-replicate, ltb,
}
use compuguessr.Base.Text.{codes}
use compuguessr.Request.{Request, IsValid}
use compuguessr.Fastcgi.Record.{Header, read_header, handle_begin_request, stdout_type}
use compuguessr.Fastcgi.Params.{params}
use compuguessr.Fastcgi.Params.Lengths.{IsBytes}
use compuguessr.Fastcgi.Params.Safe.{params_stays_inside}
use compuguessr.Fastcgi.Params.Stuck.{params_never_ends}
use compuguessr.Fastcgi.Parse.{Buffer}
use compuguessr.Fastcgi.Write.{stdout, end_request}
use compuguessr.Fastcgi.Write.Sent.{IsTx, sent, end_request_overruns, reply_id_swapped}

abbrev pub all_bytes : List ℕ → Bool
all_bytes [] = true
all_bytes (c ∷ cs) = ltb c 256 && all_bytes cs

pub all_bytes-IsBytes : (cs : List ℕ) → all_bytes cs ≡ true → IsBytes cs
all_bytes-IsBytes [] h i = omega arith
all_bytes-IsBytes (c ∷ cs) h zero = ground arith
all_bytes-IsBytes (c ∷ cs) h (suc i) = all_bytes-IsBytes cs (ground arith) i

abbrev idle : Request
idle = record {
  uri = replicate 128 0;
  method = replicate 16 0;
  session_id = replicate 32 0;
  req_id = 0;
  keep_alive = 0;
  stdin_len = 0;
  stdin_buf = replicate 4096 0;
}

idle-IsValid : IsValid idle
idle-IsValid = record {
  uri_size = length-replicate 128 0;
  method_size = length-replicate 16 0;
  session_size = length-replicate 32 0;
  stdin_size = length-replicate 4096 0;
  stdin_fits = omega arith;
}

-- One parameter.
abbrev method : List ℕ
method = 14 ∷ 3 ∷ codes "REQUEST_METHODGET"

params_stays_inside_example :
    (params 20 idle method 19 0 ≡ fail no_fuel) ⊎ Returns (params 20 idle method 19 0) IsValid
params_stays_inside_example =
    params_stays_inside 20 idle method 19 0 (all_bytes-IsBytes method refl) (omega arith)
      (omega arith) idle-IsValid

-- A pair that begins with a long length at the end of the payload.
params_never_ends_example : params 1000 idle (200 ∷ []) 1 0 ≡ fail no_fuel
params_never_ends_example =
    params_never_ends (200 ∷ []) 1 0 (omega arith) (omega arith) (omega arith) (omega arith)
      (omega arith) 1000 idle

-- BEGIN_REQUEST and a header with nothing behind it.
abbrev received : List ℕ
received = 1 ∷ 1 ∷ 0 ∷ 1 ∷ 0 ∷ 8 ∷ 0 ∷ 0 ∷ 0 ∷ 1 ∷ 1 ∷ 0 ∷ 0 ∷ 0 ∷ 0 ∷ 0 ∷ 1 ∷ 4 ∷ 0 ∷ 1 ∷ []

abbrev rx : Buffer
rx = record { address = 48; buf = received; len = 20; valid = 20; pos = 0 }

abbrev no_header : Header
no_header = record {
  version = 0;
  type = 0;
  request_id = 0;
  content_len = 0;
  padding_len = 0;
  reserved = 0;
}

abbrev tx : ℕ → Buffer
tx n = record { address = 0; buf = replicate n 0; len = n; valid = 0; pos = 0 }

tx-IsTx : (n : ℕ) → n < 2 ^ 31 → IsTx (tx n)
tx-IsTx n small = record { sized = length-replicate n 0; filled = omega arith; small = small }

end_request_overruns_example :
    (20 < (end_request (tx 20) 256).valid) × ((end_request (tx 20) 256).valid ≡ 0 + 24)
end_request_overruns_example =
    end_request_overruns (tx 20) 256 (tx-IsTx 20 (omega arith)) (omega arith) (omega arith)

reply_id_swapped_example :
    let hdr = read_header (1 ∷ 1 ∷ 0 ∷ 5 ∷ []) in
    Returns (handle_begin_request idle hdr (0 ∷ 1 ∷ 1 ∷ [])) (λ req'.
      sent (stdout (tx 64) req'.req_id (codes "hello"))
      ≡ sent (tx 64)
        ++ ((1 ∷ stdout_type ∷ 5 ∷ 0 ∷ (5 / 256 % 256) ∷ (5 % 256) ∷ 0 ∷ 0 ∷ []) ++ codes "hello"))
reply_id_swapped_example =
    reply_id_swapped idle (0 ∷ 1 ∷ 1 ∷ []) (codes "hello") 1 1 0 5 [] (tx 64) (omega arith)
      (omega arith) (omega arith) (tx-IsTx 64 (omega arith)) (omega arith)
