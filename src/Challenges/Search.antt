-- ===== src/Challenges/Search.antt =====
-- The binary search of a sorted table finds what a linear search finds.
use compuguessr.Base.{
  ℕ, zero, suc, ◌+◌, ◌-◌, ◌/◌, ◌≤◌, ◌<◌, ◌≡◌, refl, sym, ◌∙◌, ◌⊎◌, inl, inr, ◌↔◌, Bool, true, false,
  some, List, [], ◌∷◌, ok, arith, length, get_or, get_elem?-eq-get_or, ◌==◌, ltb, Bool-cases,
}
use compuguessr.Base.Search.{find_index, find_index_of_First, find_index_of_none}
use compuguessr.Util.Memory.{strcmp, is_zero, same_str, same_str_iff}
use compuguessr.Base.Text.{c_str}
use compuguessr.Challenges.{Challenge, is_negative, at, search, find}

abbrev pub nothing : Challenge
nothing = record { id_string = []; total_points = 0; question_count = 0; questions = [] }

abbrev Less : List ℕ → List ℕ → Type 0
Less s t = is_negative (strcmp s t) ≡ true

Less-trans : (s t u : List ℕ) → Less s t → Less t u → Less s u
unfolding strcmp
Less-trans [] [] u p q = absurd (ground arith)
Less-trans [] (b ∷ t) [] p q = absurd (ground arith)
Less-trans [] (b ∷ t) (c ∷ u) p q = ground arith
Less-trans (a ∷ s) [] u p q = absurd (ground arith)
Less-trans (a ∷ s) (b ∷ t) [] p q = absurd (ground arith)
Less-trans (a ∷ s) (b ∷ t) (c ∷ u) p q = ground (arith, Less-trans s t u)

-- One of three.
flip : (s t : List ℕ) → is_zero (strcmp s t) ≡ false → is_negative (strcmp s t) ≡ false → Less t s
unfolding strcmp
flip [] [] p q = ground arith
flip [] (b ∷ t) p q = ground arith
flip (a ∷ s) [] p q = ground arith
flip (a ∷ s) (b ∷ t) p q = ground (arith, flip s t)

Less-differs :
    (s t : List ℕ) → Less s t → (is_zero (strcmp s t) ≡ false) × (is_zero (strcmp t s) ≡ false)
unfolding strcmp
Less-differs [] [] p = absurd (ground arith)
Less-differs [] (b ∷ t) p = ground arith
Less-differs (a ∷ s) [] p = ground arith
Less-differs (a ∷ s) (b ∷ t) p = ground (arith, Less-differs s t)

zero_iff : (s t : List ℕ) → (is_zero (strcmp s t) ≡ true) ↔ (c_str s ≡ c_str t)
unfolding same_str
zero_iff s t = same_str_iff s t

abbrev pub id_at : List Challenge → ℕ → List ℕ
id_at db i = (get_or db i nothing).id_string

-- The ids ascend, as `cg_strcmp` orders them.
abbrev pub IsSorted : List Challenge → Type 0
IsSorted db =
    (i j : ℕ) → i < j → j < length db → is_negative (strcmp (id_at db i) (id_at db j)) ≡ true

abbrev pub id_matches : List ℕ → Challenge → Bool
id_matches id c = is_zero (strcmp c.id_string id)

module _ (db : List Challenge) (sorted : IsSorted db) (id : List ℕ) where
  abbrev Misses : ℕ → Type 0
  Misses j = is_zero (strcmp (id_at db j) id) ≡ false

  below : (mid j : ℕ) → mid < length db → Less (id_at db mid) id → j < mid + 1 → Misses j
  below mid j lt less before = elim (Bool-cases (j == mid)) [
    | inl same ↦ let e : j ≡ mid = ground arith in rw e (Less-differs (id_at db mid) id less).0
    | inr other ↦
        (Less-differs (id_at db j) id
          (Less-trans (id_at db j) (id_at db mid) id (sorted j mid (ground arith) lt) less)).0
  ]

  above : (mid j : ℕ) → Less id (id_at db mid) → mid ≤ j → j < length db → Misses j
  above mid j less after lt = elim (Bool-cases (j == mid)) [
    | inl same ↦ let e : j ≡ mid = ground arith in rw e (Less-differs id (id_at db mid) less).1
    | inr other ↦
        (Less-differs id (id_at db j)
          (Less-trans id (id_at db mid) (id_at db j) less (sorted mid j (ground arith) lt))).1
  ]

  only :
      (mid j : ℕ) → mid < length db → is_zero (strcmp (id_at db mid) id) ≡ true → j < mid → Misses j
  only mid j lt found before = elim (Bool-cases (is_zero (strcmp (id_at db j) id))) [
    | inr e ↦ e
    | inl e ↦
        let same = (zero_iff (id_at db j) id).0 e ∙ sym ((zero_iff (id_at db mid) id).0 found) in
        let equal = (zero_iff (id_at db j) (id_at db mid)).1 same in
        let differ = (Less-differs (id_at db j) (id_at db mid) (sorted j mid before lt)).0 in
        absurd (ground (arith, equal, differ))
  ]

  found_first :
      (mid : ℕ)
      → mid < length db
      → is_zero (strcmp (id_at db mid) id) ≡ true
      → find_index (id_matches id) db ≡ some mid
  found_first mid lt found =
      find_index_of_First (id_matches id) nothing db mid
        (record { below = lt; passes = found; earlier = λ j before. only mid j lt found before })

  search_lem :
      (fuel left limit : ℕ)
      → limit - left < fuel
      → limit ≤ length db
      → ((j : ℕ) → j < length db → (j < left) ⊎ (limit ≤ j) → Misses j)
      → search fuel db id left limit ≡ ok (find_index (id_matches id) db)
  unfolding search
  search_lem zero left limit enough inside outside = absurd (omega arith)
  search_lem (suc fuel) left limit enough inside outside = elim (Bool-cases (ltb left limit)) [
    | inr empty ↦
        let none_left =
          find_index_of_none (id_matches id) nothing db (λ j lt. outside j lt (ground arith)) in
        rw (empty, none_left) refl
    | inl more ↦
        let mid = left + (limit - 1 - left) / 2 in
        let lt : mid < limit = ground arith in
        rw (more, get_elem?-eq-get_or db mid nothing (omega arith), at)
          (elim (Bool-cases (is_zero (strcmp (id_at db mid) id))) [
            | inl found ↦ rw found (rw (found_first mid (omega arith) found) refl)
            | inr differs ↦ elim (Bool-cases (is_negative (strcmp (id_at db mid) id))) [
              | inl less ↦
                  rw (differs, less)
                    (search_lem fuel (mid + 1) limit (ground arith) inside (λ j j_lt out. elim out [
                      | inl before ↦ below mid j (omega arith) less before
                      | inr after ↦ outside j j_lt (inr after)
                    ]))
              | inr greater ↦
                  rw (differs, greater)
                    (search_lem fuel left mid (ground arith) (omega arith) (λ j j_lt out. elim out [
                      | inl before ↦ outside j j_lt (inl before)
                      | inr after ↦ above mid j (flip (id_at db mid) id differs greater) after j_lt
                    ]))
            ]
          ])
  ]

  -- In a table whose ids ascend, as `cg_strcmp` orders them, the binary search ends, inside the
  -- table, at the challenge that a search from the start finds: the one with the id, or none if
  -- there is none.
  pub find-scan : find db id ≡ ok (find_index (id_matches id) db)
  unfolding find
  find-scan =
      search_lem (length db + 1) 0 (length db) (omega arith) (omega arith)
        (λ j lt out. absurd (omega arith))
