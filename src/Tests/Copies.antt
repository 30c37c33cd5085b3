-- ===== src/Tests/Copies.antt =====
-- Copies of memory, and reads that end within a record.
use compuguessr.Base.{
  ℕ, zero, suc, ◌+◌, ◌≡◌, ◌≤◌, ◌<◌, refl, inl, List, [], ◌∷◌, ◌++◌, arith, ok, get_or, replicate,
}
use compuguessr.Base.Text.{codes, c_str, write}
use compuguessr.Clients.{Client}
use compuguessr.Fastcgi.Parse.Bounds.{IsBuffer}
use compuguessr.Util.Copy.{
  memcpy, prologue, tail_size, memcpy_avx2, memset, fill_vectors, fill_tail, memset_avx2, puts,
}
use compuguessr.Util.Copy.Exact.{Clashes}
use compuguessr.Util.Copy.Written.{copied, memcpy_avx2-memcpy}
use compuguessr.App.Peer.{received}
use compuguessr.App.Peer.Split.{IsPartial, waiting, partial_kept, partial_shifted}
use compuguessr.Tests.Records.{all_bytes-IsBytes}
use compuguessr.Tests.Server.{sums, table, route_map, world, moment}
use compuguessr.Tests.Peers.{client}

-- `n` bytes from `first` on.
abbrev numbers : ℕ → ℕ → List ℕ
numbers zero first = []
numbers (suc n) first = first ∷ numbers n (first + 1)

memcpy_avx2-memcpy_example :
    (memcpy_avx2 7 (numbers 200 0) 3 100 90 ≡ memcpy 90 (numbers 200 0) 3 100)
    × (memcpy 90 (numbers 200 0) 3 100 ≡ copied (numbers 200 0) 3 100 90)
memcpy_avx2-memcpy_example =
    memcpy_avx2-memcpy 7 (numbers 200 0) 3 100 90 (inl (omega arith)) (omega arith) (omega arith)

filled_twice : memset_avx2 9 (numbers 50 0) 4 7 45 ≡ write (numbers 50 0) 4 (replicate 45 7)
unfolding memset_avx2 memset fill_vectors fill_tail prologue tail_size write replicate
filled_twice = refl

shown : puts (replicate 4 85) (codes "ok" ++ 0 ∷ 1 ∷ []) ≡ codes "ok" ++ 10 ∷ []
unfolding puts memcpy c_str replicate
shown = refl

-- The start of a record of 100 bytes parameters, as the memory of the first client: it stands 48
-- bytes behind an address that is a multiple of 32.
abbrev record_bytes : List ℕ
record_bytes = 1 ∷ 4 ∷ 0 ∷ 1 ∷ 0 ∷ 100 ∷ 0 ∷ 0 ∷ numbers 100 100

abbrev reading : Client
reading =
    let fcgi = client.fcgi in
    record client {
      fcgi = record fcgi {
        rx = record { address = 48; buf = record_bytes; len = 108; valid = 0; pos = 0 };
      };
    }

reading-IsBuffer : IsBuffer reading.fcgi.rx
reading-IsBuffer = record {
  sized = refl;
  filled = omega arith;
  small = omega arith;
  bytes = all_bytes-IsBytes record_bytes refl;
}

starts : (n : ℕ) → 8 ≤ n → n < 108 → IsPartial reading.fcgi.rx reading.fcgi.saved_hdr n
starts n header short = record {
  fits = omega arith;
  fresh = refl;
  header = omega arith;
  partial = omega arith;
}

-- With 20 bytes the move is short.
partial_kept_example :
    (received sums table route_map world reading moment 20 ≡ ok (world, waiting reading 20))
    × (get_or (waiting reading 20).fcgi.rx.buf 5 0 ≡ 105)
partial_kept_example =
    partial_kept sums table route_map world reading moment 20 reading-IsBuffer
      (starts 20 (omega arith) (omega arith)) (λ c. let long = c.long in omega arith) 5
      (omega arith)

clashing : Clashes 48 0 8 50
unfolding tail_size prologue
clashing = record {
  long = omega arith;
  tail = omega arith;
  forward = omega arith;
  near = omega arith;
}

-- With 58 bytes it is not: the byte 120 of the payload is lost, and 128 stands in its place.
partial_shifted_example :
    (received sums table route_map world reading moment 58 ≡ ok (world, waiting reading 58))
    × (get_or (waiting reading 58).fcgi.rx.buf 20 0 ≡ 128)
unfolding tail_size prologue
partial_shifted_example =
    partial_shifted sums table route_map world reading moment 58 reading-IsBuffer
      (starts 58 (omega arith) (omega arith)) clashing 20 (omega arith) (omega arith)
