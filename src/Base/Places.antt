-- ===== src/Base/Places.antt =====
-- The items of a list place by place, for the operations that copy.
use compuguessr.Base.{
  ℕ, zero, suc, ◌+◌, ◌-◌, ◌≤◌, ◌<◌, ◌≡◌, refl, ap, ◌∙◌, List, [], ◌∷◌, ◌++◌, arith, length, get_or,
  take, drop, replicate, length-take, get_or-drop,
}
use compuguessr.Base.Text.{write}

module _ {ℓ} {A : Type ℓ} where
  pub get_or-take :
      (n : ℕ) (xs : List A) (i : ℕ) (d : A) → i < n → get_or (take n xs) i d ≡ get_or xs i d
  get_or-take zero xs i d h = absurd (omega arith)
  get_or-take (suc n) [] i d h = refl
  get_or-take (suc n) (x ∷ xs) zero d h = refl
  get_or-take (suc n) (x ∷ xs) (suc i) d h = get_or-take n xs i d (omega arith)

  pub take-drop : (n : ℕ) (xs : List A) → take n xs ++ drop n xs ≡ xs
  take-drop zero xs = refl
  take-drop (suc n) [] = refl
  take-drop (suc n) (x ∷ xs) = ap (◌∷◌ x) (take-drop n xs)

  pub get_or-append_left :
      (xs ys : List A) (i : ℕ) (d : A) → i < length xs → get_or (xs ++ ys) i d ≡ get_or xs i d
  get_or-append_left [] ys i d h = absurd (omega arith)
  get_or-append_left (x ∷ xs) ys zero d h = refl
  get_or-append_left (x ∷ xs) ys (suc i) d h = get_or-append_left xs ys i d (omega arith)

  pub get_or-append_right :
      (xs ys : List A) (i : ℕ) (d : A) → get_or (xs ++ ys) (length xs + i) d ≡ get_or ys i d
  get_or-append_right [] ys i d = let same : 0 + i ≡ i = omega arith in rw same refl
  get_or-append_right (x ∷ xs) ys i d =
      let next : suc (length xs) + i ≡ suc (length xs + i) = omega arith in
      rw next (get_or-append_right xs ys i d)

  pub get_or-replicate_at : (n i : ℕ) (a d : A) → i < n → get_or (replicate n a) i d ≡ a
  unfolding replicate
  get_or-replicate_at zero i a d h = absurd (omega arith)
  get_or-replicate_at (suc n) zero a d h = refl
  get_or-replicate_at (suc n) (suc i) a d h = get_or-replicate_at n i a d (omega arith)

  -- Two lists with the same items are the same.
  pub places_ext :
      (d : A) (xs ys : List A)
      → length xs ≡ length ys
      → ((i : ℕ) → i < length xs → get_or xs i d ≡ get_or ys i d)
      → xs ≡ ys
  places_ext d [] [] h e = refl
  places_ext d [] (y ∷ ys) h e = absurd (omega arith)
  places_ext d (x ∷ xs) [] h e = absurd (omega arith)
  places_ext d (x ∷ xs) (y ∷ ys) h e =
      let tails = places_ext d xs ys (omega arith) (λ i p. e (suc i) (omega arith)) in
      rw (e 0 (omega arith), tails) refl

module _ (buf : List ℕ) (off : ℕ) (src : List ℕ) (inside : off ≤ length buf) where
  before_size : length (take off buf) ≡ off
  before_size = omega (arith, length-take off buf)

  pub get_or-write_below : (i : ℕ) → i < off → get_or (write buf off src) i 0 ≡ get_or buf i 0
  unfolding write
  get_or-write_below i h =
      get_or-append_left (take off buf) _ i 0 (omega (arith, before_size))
      ∙ get_or-take off buf i 0 h

  at_write :
      (i : ℕ)
      → get_or (write buf off src) (off + i) 0 ≡ get_or (src ++ drop (off + length src) buf) i 0
  unfolding write
  at_write i =
      rw before_size at
        (get_or-append_right (take off buf) (src ++ drop (off + length src) buf) i 0)

  pub get_or-write_at :
      (i : ℕ) → i < length src → get_or (write buf off src) (off + i) 0 ≡ get_or src i 0
  get_or-write_at i h = at_write i ∙ get_or-append_left src _ i 0 h

  pub get_or-write_above :
      (i : ℕ) → off + length src ≤ i → get_or (write buf off src) i 0 ≡ get_or buf i 0
  get_or-write_above i h =
      let k = i - (off + length src) in
      let place : off + (length src + k) ≡ i = omega arith in
      let place' : off + length src + k ≡ i = omega arith in
      let rest = get_or-append_right src (drop (off + length src) buf) k 0 in
      let read = get_or-drop (off + length src) buf k 0 in
      rw place at (at_write (length src + k)) ∙ rest ∙ rw place' at read
