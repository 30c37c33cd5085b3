-- ===== src/App/Peer/Buffers.antt =====
-- The receive buffer of a client, when the rest of it is moved to its start.
use compuguessr.Base.{
  ℕ, zero, suc, ◌+◌, ◌-◌, ◌≤◌, ◌≡◌, refl, ◌∙◌, inl, inr, ◌&&◌, List, [], ◌∷◌, ◌++◌, arith, length,
  get_or-drop, take, drop, ltb, Bool-cases,
}
use compuguessr.Base.Text.{write}
use compuguessr.Base.Words.{sub_u32}
use compuguessr.Fastcgi.Params.Lengths.{IsBytes}
use compuguessr.Fastcgi.Parse.{Buffer}
use compuguessr.Fastcgi.Parse.Bounds.{IsBuffer}
use compuguessr.Util.Copy.Clash.{Rearranges, memcpy_avx2-Rearranges}
use compuguessr.Util.Copy.Moves.{Fits}
use compuguessr.App.Peer.{compact}

IsBytes-append : (xs ys : List ℕ) → IsBytes xs → IsBytes ys → IsBytes (xs ++ ys)
IsBytes-append [] ys p q i = q i
IsBytes-append (x ∷ xs) ys p q zero = p 0
IsBytes-append (x ∷ xs) ys p q (suc i) = IsBytes-append xs ys (λ j. p (suc j)) q i

IsBytes-take : (n : ℕ) (xs : List ℕ) → IsBytes xs → IsBytes (take n xs)
IsBytes-take zero xs p i = omega arith
IsBytes-take (suc n) [] p i = omega arith
IsBytes-take (suc n) (x ∷ xs) p zero = p 0
IsBytes-take (suc n) (x ∷ xs) p (suc i) = IsBytes-take n xs (λ j. p (suc j)) i

IsBytes-drop : (n : ℕ) (xs : List ℕ) → IsBytes xs → IsBytes (drop n xs)
IsBytes-drop n xs p i = rw (get_or-drop n xs i 0) (p (n + i))

-- Bytes written over bytes.
pub IsBytes-write :
    (buf : List ℕ) (off : ℕ) (src : List ℕ)
    → IsBytes buf
    → IsBytes src
    → IsBytes (write buf off src)
unfolding write
IsBytes-write buf off src p q =
    IsBytes-append (take off buf) (src ++ drop (off + length src) buf) (IsBytes-take off buf p)
      (IsBytes-append src (drop (off + length src) buf) q (IsBytes-drop (off + length src) buf p))

-- The rest that is moved, for a place inside what is valid.
pub record Compacts (rx : Buffer) (at : ℕ) (rx' : Buffer) : Type 0 where
  pub buffer : IsBuffer rx'
  pub len : rx'.len ≡ rx.len
  pub valid : rx'.valid ≡ rx.valid - at

-- The copy from `at` to the start stays inside the buffer.
pub compact-Fits :
    (rx : Buffer) (at : ℕ) → IsBuffer rx → at ≤ rx.valid → Fits rx.buf 0 at (rx.valid - at)
compact-Fits rx at b inside = record {
  ahead = inl (omega arith);
  writes = omega (arith, b.filled, b.sized);
  reads = omega (arith, b.filled, b.sized);
}

-- The size of the rest does not wrap.
pub leftover_lem :
    (rx : Buffer) (at : ℕ) → IsBuffer rx → at ≤ rx.valid → sub_u32 rx.valid at ≡ rx.valid - at
leftover_lem rx at b inside = omega (arith, b.filled, b.small)

IsBytes-Rearranges : (mem mem' : List ℕ) → Rearranges mem mem' → IsBytes mem → IsBytes mem'
IsBytes-Rearranges mem mem' r p i = let j = r.from i in rw (j.1) (p j.0)

pub compact-Compacts :
    (rx : Buffer) (at : ℕ) → IsBuffer rx → at ≤ rx.valid → Compacts rx at (compact rx at)
unfolding compact
compact-Compacts rx at b inside =
    let left = leftover_lem rx at b inside in
    let filled : rx.valid - at ≤ rx.len = omega (arith, b.filled) in
    let moves =
      memcpy_avx2-Rearranges rx.address rx.buf 0 at (rx.valid - at) (compact-Fits rx at b inside) in
    elim (Bool-cases (ltb 0 (rx.valid - at) && ltb 0 at)) [
      | inl move ↦
          rw (left, move)
            (record {
              buffer = record {
                sized = moves.sized ∙ b.sized;
                filled = filled;
                small = b.small;
                bytes = IsBytes-Rearranges rx.buf _ moves b.bytes;
              };
              len = refl;
              valid = refl;
            })
      | inr stay ↦
          rw (left, stay)
            (record {
              buffer = record {
                sized = b.sized;
                filled = filled;
                small = b.small;
                bytes = b.bytes;
              };
              len = refl;
              valid = refl;
            })
    ]
