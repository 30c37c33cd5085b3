-- ===== src/Router/Board/Rank.antt =====
-- The ten places of the leaderboard, against a sort of all active accounts.
use compuguessr.Base.{
  ℕ, zero, suc, ◌+◌, ◌≤◌, ◌≡◌, refl, ap, ◌∙◌, Bool, not, ◌&&◌, List, [], ◌∷◌, arith, take, ltb,
  if◌then◌else◌, Bool-cases, inl, inr,
}
use compuguessr.Base.Search.{count_if, to_ℕ}
use compuguessr.UserDb.{UserEntry, is_idle}
use compuguessr.Router.Board.{place, top_ten}

-- Before the first entry with fewer points.
unfoldable pub insert : UserEntry → List UserEntry → List UserEntry
insert u [] = u ∷ []
insert u (t ∷ ts) =
    let rest = insert u ts in if ltb t.total_points u.total_points then u ∷ t ∷ ts else t ∷ rest

-- Insertion sort of the active accounts of a pool.
unfoldable pub ranking : List UserEntry → List UserEntry → List UserEntry
unfolding insert
ranking ranked [] = ranked
ranking ranked (u ∷ pool) = ranking (if not (is_idle u) then insert u ranked else ranked) pool

abbrev pub AtMost : ℕ → List UserEntry → Type 0
AtMost points [] = Unit {0}
AtMost points (t ∷ ts) = (t.total_points ≤ points) × AtMost points ts

-- The points never rise.
abbrev pub IsRanked : List UserEntry → Type 0
IsRanked [] = Unit {0}
IsRanked (t ∷ ts) = AtMost t.total_points ts × IsRanked ts

take_twice : (n : ℕ) (l : List UserEntry) → take n (take (suc n) l) ≡ take n l
take_twice zero l = refl
take_twice (suc n) [] = refl
take_twice (suc n) (x ∷ l) = ap (◌∷◌ x) (take_twice n l)

take_less :
    (room : ℕ) (t : UserEntry) (ts : List UserEntry)
    → take room (t ∷ take room ts) ≡ take room (t ∷ ts)
take_less zero t ts = refl
take_less (suc room) t ts = ap (◌∷◌ t) (take_twice room ts)

place-take :
    (room : ℕ) (u : UserEntry) (l : List UserEntry)
    → place room u (take room l) ≡ take room (insert u l)
unfolding place insert
place-take zero u l = refl
place-take (suc room) u [] = take_one room u
  where
    take_one : (room : ℕ) (u : UserEntry) → u ∷ [] ≡ take (suc room) (u ∷ [])
    take_one zero u = refl
    take_one (suc room) u = refl
place-take (suc room) u (t ∷ ts) = elim (Bool-cases (ltb t.total_points u.total_points)) [
  | inl less ↦ rw less (ap (◌∷◌ u) (take_less room t ts))
  | inr more ↦ rw more (ap (◌∷◌ t) (place-take room u ts))
]

top_ten-take : (l pool : List UserEntry) → top_ten (take 10 l) pool ≡ take 10 (ranking l pool)
unfolding top_ten ranking
top_ten-take l [] = refl
top_ten-take l (u ∷ pool) = elim (Bool-cases (is_idle u)) [
  | inl idle ↦ rw idle (top_ten-take l pool)
  | inr busy ↦ rw (busy, place-take 10 u l) (top_ten-take (insert u l) pool)
]

AtMost-insert :
    (p : ℕ) (u : UserEntry) (l : List UserEntry)
    → u.total_points ≤ p
    → AtMost p l
    → AtMost p (insert u l)
unfolding insert
AtMost-insert p u [] h a = (h, tt)
AtMost-insert p u (t ∷ ts) h (a, below) = ground (arith, AtMost-insert p u ts)

AtMost-mono : (p q : ℕ) (l : List UserEntry) → p ≤ q → AtMost p l → AtMost q l
AtMost-mono p q [] h a = tt
AtMost-mono p q (t ∷ ts) h (a, below) = (omega arith, AtMost-mono p q ts h below)

insert-IsRanked : (u : UserEntry) (l : List UserEntry) → IsRanked l → IsRanked (insert u l)
unfolding insert
insert-IsRanked u [] r = (tt, tt)
insert-IsRanked u (t ∷ ts) (a, r) = elim (Bool-cases (ltb t.total_points u.total_points)) [
  | inl less ↦
      rw less
        ((ground arith, AtMost-mono t.total_points u.total_points ts (ground arith) a), (a, r))
  | inr more ↦ rw more (AtMost-insert t.total_points u ts (ground arith) a, insert-IsRanked u ts r)
]

ranking-IsRanked : (l pool : List UserEntry) → IsRanked l → IsRanked (ranking l pool)
unfolding ranking
ranking-IsRanked l [] r = r
ranking-IsRanked l (u ∷ pool) r = elim (Bool-cases (is_idle u)) [
  | inl idle ↦ rw idle (ranking-IsRanked l pool r)
  | inr busy ↦ rw busy (ranking-IsRanked (insert u l) pool (insert-IsRanked u l r))
]

module _ (test : UserEntry → Bool) where
  count_insert :
      (u : UserEntry) (l : List UserEntry)
      → count_if test (insert u l) ≡ to_ℕ (test u) + count_if test l
  unfolding insert count_if
  count_insert u [] = refl
  count_insert u (t ∷ ts) = ground (arith, count_insert u ts)

  count_ranking :
      (l pool : List UserEntry)
      → count_if test (ranking l pool)
        ≡ count_if test l + count_if (λ (u : UserEntry). not (is_idle u) && test u) pool
  unfolding ranking count_if
  count_ranking l [] = omega arith
  count_ranking l (u ∷ pool) = elim (Bool-cases (is_idle u)) [
    | inl idle ↦ rw idle (omega (arith, count_ranking l pool))
    | inr busy ↦ rw busy (omega (arith, count_ranking (insert u l) pool, count_insert u l))
  ]

none_ranked :
    (test : UserEntry → Bool) (pool : List UserEntry)
    → count_if test [] + count_if (λ (u : UserEntry). not (is_idle u) && test u) pool
      ≡ count_if (λ (u : UserEntry). not (is_idle u) && test u) pool
unfolding count_if
none_ranked test pool = omega arith

-- The entries of the leaderboard are the first ten of a ranking in which the points never rise and
-- that has, of the entries with any property, as many as the pool has active ones.
pub top_ten-ranking :
    (pool : List UserEntry)
    → (top_ten [] pool ≡ take 10 (ranking [] pool))
      × IsRanked (ranking [] pool)
      × ((test : UserEntry → Bool)
          → count_if test (ranking [] pool)
            ≡ count_if (λ (u : UserEntry). not (is_idle u) && test u) pool)
top_ten-ranking pool = (
  top_ten-take [] pool,
  ranking-IsRanked [] pool tt,
  (λ test. count_ranking test [] pool ∙ none_ranked test pool),
)
