-- ===== src/Base/Search.antt =====
-- Loops over an array that look for the first item that passes a test, and the number of items
-- that pass it.
use mathlib.Core.Option
use compuguessr.Base.{
  ℕ, zero, suc, ◌+◌, ◌<◌, ◌≡◌, refl, inl, inr, Bool, true, false, not, Option, none, some, List, [],
  ◌∷◌, arith, length, get_or, set, if◌then◌else◌, Bool-cases,
}

abbrev pub to_ℕ : Bool → ℕ
to_ℕ true = 1
to_ℕ false = 0

module _ {ℓ} {A : Type ℓ} (test : A → Bool) where
  -- `for (i = 0; i < N; i++) if (test(pool[i])) return i;` over an array of `N` items.
  unfoldable pub find_index : List A → Option ℕ
  find_index [] = none
  find_index (x ∷ xs) = if test x then some 0 else Option.map suc (find_index xs)

  unfoldable pub count_if : List A → ℕ
  count_if [] = 0
  count_if (x ∷ xs) = to_ℕ (test x) + count_if xs

  -- What a search that found `i` says.
  pub record First (d : A) (xs : List A) (i : ℕ) : Type ℓ where
    pub below : i < length xs
    pub passes : test (get_or xs i d) ≡ true
    pub earlier : (j : ℕ) → j < i → test (get_or xs j d) ≡ false

  pub find_index-First : (d : A) (xs : List A) (i : ℕ) → find_index xs ≡ some i → First d xs i
  unfolding find_index
  find_index-First d [] i h = absurd (cc)
  find_index-First d (x ∷ xs) zero h = record {
    below = omega arith;
    passes = ground arith;
    earlier = λ j lt. absurd (omega arith);
  }
  find_index-First d (x ∷ xs) (suc i) h =
      let rest : First d xs i = find_index-First d xs i (ground arith) in
      record {
        below = omega (arith, rest.below);
        passes = rest.passes;
        earlier = elim [ zero ↦ λ lt. ground arith | suc j ↦ λ lt. rest.earlier j (omega arith) ];
      }

  pub find_index-none :
      (d : A) (xs : List A)
      → find_index xs ≡ none
      → (j : ℕ) → j < length xs
      → test (get_or xs j d) ≡ false
  unfolding find_index
  find_index-none d [] h j lt = absurd (omega arith)
  find_index-none d (x ∷ xs) h zero lt = ground arith
  find_index-none d (x ∷ xs) h (suc j) lt = find_index-none d xs (ground arith) j (omega arith)

  pub find_index_of_none :
      (d : A) (xs : List A)
      → ((j : ℕ) → j < length xs → test (get_or xs j d) ≡ false)
      → find_index xs ≡ none
  unfolding find_index
  find_index_of_none d [] h = refl
  find_index_of_none d (x ∷ xs) h =
      ground (arith, h 0, find_index_of_none d xs (λ j lt. h (suc j) (omega arith)))

  pub find_index_of_First : (d : A) (xs : List A) (i : ℕ) → First d xs i → find_index xs ≡ some i
  unfolding find_index
  find_index_of_First d [] i f = absurd (omega (arith, f.below))
  find_index_of_First d (x ∷ xs) zero f = ground (arith, f.passes)
  find_index_of_First d (x ∷ xs) (suc i) f = ground (
    arith,
    f.earlier 0,
    find_index_of_First d xs i (record {
      below = omega (arith, f.below);
      passes = f.passes;
      earlier = λ j lt. f.earlier (suc j) (omega arith);
    }),
  )

  pub count_if-set :
      (d : A) (xs : List A) (i : ℕ) (v : A)
      → i < length xs
      → count_if (set xs i v) + to_ℕ (test (get_or xs i d)) ≡ count_if xs + to_ℕ (test v)
  unfolding count_if
  count_if-set d [] i v h = absurd (omega arith)
  count_if-set d (x ∷ xs) zero v h = omega arith
  count_if-set d (x ∷ xs) (suc i) v h = omega (arith, count_if-set d xs i v (omega arith))

  -- Some item passes exactly if the number is positive.
  pub count_if_witness :
      (d : A) (xs : List A)
      → 0 < count_if xs
      → (i : ℕ) × (i < length xs) × (test (get_or xs i d) ≡ true)
  unfolding count_if
  count_if_witness d [] h = absurd (omega arith)
  count_if_witness d (x ∷ xs) h = elim (Bool-cases (test x)) [
    | inl here ↦ (0, omega arith, here)
    | inr there ↦ let (i, lt, p) = count_if_witness d xs (ground arith) in (suc i, omega arith, p)
  ]

  pub count_if_pos :
      (d : A) (xs : List A) (i : ℕ) → i < length xs → test (get_or xs i d) ≡ true → 0 < count_if xs
  unfolding count_if
  count_if_pos d [] i lt h = absurd (omega arith)
  count_if_pos d (x ∷ xs) zero lt h = ground arith
  count_if_pos d (x ∷ xs) (suc i) lt h = omega (arith, count_if_pos d xs i (omega arith) h)

  pub count_if_le : (xs : List A) → count_if xs < suc (length xs)
  unfolding count_if
  count_if_le [] = omega arith
  count_if_le (x ∷ xs) = ground (arith, count_if_le xs)

-- Where no item passes, every item fails.
pub count_if-not {ℓ} :
    {A : Type ℓ} (test : A → Bool) (xs : List A)
    → find_index test xs ≡ none
    → count_if (λ x. not (test x)) xs ≡ length xs
unfolding find_index count_if
count_if-not test [] h = refl
count_if-not test (x ∷ xs) h = ground (arith, count_if-not test xs)
