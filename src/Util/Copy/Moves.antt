-- ===== src/Util/Copy/Moves.antt =====
-- What a copy does to memory, byte by byte, and how copies follow each other.
use compuguessr.Base.{
  ℕ, zero, suc, ◌+◌, ◌-◌, ◌*◌, ◌≤◌, ◌<◌, ◌≡◌, refl, ◌∙◌, ◌⊎◌, inl, inr, List, arith, length, get_or,
  set, take, drop, length-set, length-take, length-drop, get_or-drop, get_or-set,
}
use native.Mathlib.Decide.{dec_lt}
use compuguessr.Base.Places.{get_or-take, get_or-write_below, get_or-write_at, get_or-write_above}
use compuguessr.Base.Text.{write, length-write}
use compuguessr.Util.Copy.{memcpy, copy_vector, copy_vectors}

-- `n` bytes at `src` now stand at `dest`, and nothing else has changed.
pub record Moves (mem : List ℕ) (dest src n : ℕ) (mem' : List ℕ) : Type 0 where
  pub sized : length mem' ≡ length mem
  pub moved : (i : ℕ) → i < n → get_or mem' (dest + i) 0 ≡ get_or mem (src + i) 0
  pub below : (i : ℕ) → i < dest → get_or mem' i 0 ≡ get_or mem i 0
  pub above : (i : ℕ) → dest + n ≤ i → get_or mem' i 0 ≡ get_or mem i 0

-- Both operands lie in memory, and a copy that goes forward does not overtake its source.
pub record Fits (mem : List ℕ) (dest src n : ℕ) : Type 0 where
  pub ahead : (dest ≤ src) ⊎ (src + n ≤ dest)
  pub writes : dest + n ≤ length mem
  pub reads : src + n ≤ length mem

pub Moves-none : (mem : List ℕ) (dest src : ℕ) → Moves mem dest src 0 mem
Moves-none mem dest src = record {
  sized = refl;
  moved = λ i h. absurd (omega arith);
  below = λ i h. refl;
  above = λ i h. refl;
}

-- What stands in the source behind the part that is copied is still there.
Moves-source :
    (mem mem' : List ℕ) (dest src p q : ℕ)
    → Fits mem dest src (p + q)
    → Moves mem dest src p mem'
    → (i : ℕ) → i < q
    → get_or mem' (src + p + i) 0 ≡ get_or mem (src + p + i) 0
Moves-source mem mem' dest src p q f m i h = elim f.ahead [
  | inl forward ↦ m.above (src + p + i) (omega arith)
  | inr behind ↦ m.below (src + p + i) (omega arith)
]

pub Moves-append :
    (mem mem₁ mem₂ : List ℕ) (dest src p q : ℕ)
    → Fits mem dest src (p + q)
    → Moves mem dest src p mem₁
    → Moves mem₁ (dest + p) (src + p) q mem₂
    → Moves mem dest src (p + q) mem₂
Moves-append mem mem₁ mem₂ dest src p q f m₁ m₂ = record {
  sized = m₂.sized ∙ m₁.sized;
  moved = λ i h. elim (dec_lt i p) [
    | yes first ↦ m₂.below (dest + i) (omega arith) ∙ m₁.moved i first
    | no second ↦
        let d : dest + p + (i - p) ≡ dest + i = omega arith in
        let s : src + p + (i - p) ≡ src + i = omega arith in
        let k : i - p < q = omega arith in
        rw (d, s) at (m₂.moved (i - p) k)
        ∙ rw s at (Moves-source mem mem₁ dest src p q f m₁ (i - p) k)
  ];
  below = λ i h. m₂.below i (omega arith) ∙ m₁.below i h;
  above = λ i h. m₂.above i (omega arith) ∙ m₁.above i (omega arith);
}

Moves-set :
    (mem : List ℕ) (dest src : ℕ)
    → dest < length mem
    → Moves mem dest src 1 (set mem dest (get_or mem src 0))
Moves-set mem dest src h =
    let v = get_or mem src 0 in
    record {
      sized = length-set mem dest v;
      moved = λ i p.
          let d : dest + i ≡ dest = omega arith in
          let s : src + i ≡ src = omega arith in
          rw (d, s) (ground (arith, get_or-set mem dest dest v 0 h));
      below = λ i p. ground (arith, get_or-set mem dest i v 0 h);
      above = λ i p. ground (arith, get_or-set mem dest i v 0 h);
    }

-- A block is read as a whole, so it moves wherever it stands.
pub Moves-block :
    (mem : List ℕ) (dest src n : ℕ)
    → dest + n ≤ length mem
    → src + n ≤ length mem
    → Moves mem dest src n (write mem dest (take n (drop src mem)))
Moves-block mem dest src n hd hs =
    let block = take n (drop src mem) in
    let size : length block ≡ n =
      omega (arith, length-take n (drop src mem), length-drop src mem) in
    let inside : dest ≤ length mem = omega arith in
    record {
      sized = length-write mem dest block (omega arith);
      moved = λ i h.
          get_or-write_at mem dest block inside i (omega arith)
          ∙ get_or-take n (drop src mem) i 0 h
          ∙ get_or-drop src mem i 0;
      below = λ i h. get_or-write_below mem dest block inside i h;
      above = λ i h. get_or-write_above mem dest block inside i (omega arith);
    }

pub Fits-rest :
    (mem mem' : List ℕ) (dest src p q : ℕ)
    → Fits mem dest src (p + q)
    → Moves mem dest src p mem'
    → Fits mem' (dest + p) (src + p) q
Fits-rest mem mem' dest src p q f m = record {
  ahead = elim f.ahead [ inl a ↦ inl (omega arith) | inr a ↦ inr (omega arith) ];
  writes = omega (arith, f.writes, m.sized);
  reads = omega (arith, f.reads, m.sized);
}

-- The byte loop.
pub memcpy-Moves :
    (n : ℕ) (mem : List ℕ) (dest src : ℕ)
    → Fits mem dest src n
    → Moves mem dest src n (memcpy n mem dest src)
unfolding memcpy
memcpy-Moves zero mem dest src f = Moves-none mem dest src
memcpy-Moves (suc n) mem dest src f =
    let next = set mem dest (get_or mem src 0) in
    let size : 1 + n ≡ suc n = omega arith in
    let one = Moves-set mem dest src (omega (arith, f.writes)) in
    let g : Fits mem dest src (1 + n) = rw size f in
    rw size at (
      Moves-append mem next (memcpy n next (dest + 1) (src + 1)) dest src 1 n g one
        (memcpy-Moves n next (dest + 1) (src + 1) (Fits-rest mem next dest src 1 n g one)))

-- The vector loop.
pub copy_vectors-Moves :
    (rounds : ℕ) (mem : List ℕ) (dest src : ℕ)
    → Fits mem dest src (rounds * 32)
    → Moves mem dest src (rounds * 32) (copy_vectors rounds mem dest src)
unfolding copy_vectors
copy_vectors-Moves zero mem dest src f = Moves-none mem dest src
copy_vectors-Moves (suc rounds) mem dest src f =
    let next = copy_vector mem dest src in
    let size : 32 + rounds * 32 ≡ suc rounds * 32 = omega arith in
    let g : Fits mem dest src (32 + rounds * 32) = rw size f in
    let one = Moves-block mem dest src 32 (omega (arith, g.writes)) (omega (arith, g.reads)) in
    rw size at (
      Moves-append mem next (copy_vectors rounds next (dest + 32) (src + 32)) dest src 32
        (rounds * 32) g one
        (copy_vectors-Moves rounds next (dest + 32) (src + 32)
          (Fits-rest mem next dest src 32 (rounds * 32) g one)))
