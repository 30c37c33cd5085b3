-- ===== src/Clients/Pool.antt =====
-- The clients of a pool that are in use.
use compuguessr.Base.{
  ℕ, zero, suc, ◌+◌, ◌<◌, ◌≡◌, refl, ap, sym, ◌⊎◌, inl, inr, true, none, some, List, [], ◌∷◌, arith,
  length, get_elem?, Option-cases,
}
use compuguessr.Base.Search.{count_if, find_index}
use compuguessr.Clients.{
  Client, ClientState, free_state, in_use, pool_init, is_free, put_state, alloc_at, alloc, free,
}

-- What an allocation of client `i` does.
pub record Allocates (pool : List Client) (i : ℕ) (pool' : List Client) : Type 0 where
  pub below : i < length pool
  pub one_less : count_if is_free pool' + 1 ≡ count_if is_free pool
  pub same_length : length pool' ≡ length pool
  pub restores : free pool' (some i) ≡ pool
  pub others : (j : ℕ) → (j ≡ i) ⊎ (get_elem? pool' j ≡ get_elem? pool j)

free_eta : (c : Client) → is_free c ≡ true → record c { state = free_state } ≡ c
free_eta c e = go c.state refl
  where
    go : (s : ClientState) → c.state ≡ s → record c { state = free_state } ≡ c
    go free_state same = ap (λ s. record c { state = s }) (sym same)
    go in_use same = absurd (ground (arith, e, same))

found_free :
    (pool : List Client) (i : ℕ)
    → find_index is_free pool ≡ some i
    → Allocates pool i (put_state pool i in_use)
unfolding find_index count_if free
found_free [] i e = absurd cc
found_free (c ∷ cs) zero e =
    let here : is_free c ≡ true = ground arith in
    record {
      below = omega arith;
      one_less = rw here (omega arith);
      same_length = refl;
      restores = ap (λ d. d ∷ cs) (free_eta c here);
      others = elim [ zero ↦ inl refl | suc j ↦ inr refl ];
    }
found_free (c ∷ cs) (suc i) e =
    let rest = found_free cs i (ground arith) in
    record {
      below = omega (arith, rest.below);
      one_less = omega (arith, rest.one_less);
      same_length = ap suc rest.same_length;
      restores = ap (◌∷◌ c) rest.restores;
      others = elim [
        | zero ↦ inr refl
        | suc j ↦ elim (rest.others j) [ inl same ↦ inl (ap suc same) | inr kept ↦ inr kept ]
      ];
    }

none_free : (pool : List Client) → find_index is_free pool ≡ none → count_if is_free pool ≡ 0
unfolding find_index count_if
none_free [] e = refl
none_free (c ∷ cs) e = ground (arith, none_free cs)

-- An allocation gives no client exactly where none is free, and then changes nothing; otherwise it
-- gives a client of the pool, after which one client less is free, every other client is as before,
-- and freeing the client gives back the pool as it was.
pub alloc_cases :
    (pool : List Client)
    → ((alloc pool ≡ (none, pool)) × (count_if is_free pool ≡ 0))
      ⊎ ((i : ℕ) × ((alloc pool).0 ≡ some i) × Allocates pool i (alloc pool).1)
unfolding alloc
alloc_cases pool = elim (Option-cases (find_index is_free pool)) [
  | inl e ↦ inl (ap (alloc_at pool) e, none_free pool e)
  | inr (i, e) ↦ inr (i, rw e refl, rw e (found_free pool i e))
]

-- After the start of a pool every one of its clients is free.
pub pool_init-free :
    (pool : List Client) → count_if is_free (pool_init (length pool) pool) ≡ length pool
unfolding pool_init count_if
pool_init-free [] = refl
pool_init-free (c ∷ cs) = omega (arith, pool_init-free cs)
