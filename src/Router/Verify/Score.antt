-- ===== src/Router/Verify/Score.antt =====
-- The points of a submission, and what a full score does to an account.
use compuguessr.Base.{
  ℕ, zero, suc, ◌+◌, ◌*◌, ◌%◌, ◌^◌, ◌≤◌, ◌<◌, ◌≡◌, refl, ap, ◌∙◌, ◌⊎◌, inl, inr, min, Bool, true,
  false, Option, none, some, List, [], ◌∷◌, arith, length, length-set, length-take, take, get_or,
  get_or-set, set, ◌==◌, ltb, if◌then◌else◌, Bool-cases, Option-cases,
}
use compuguessr.Base.Search.{find_index, find_index_of_First, find_index-none}
use compuguessr.Base.Words.{u32}
use compuguessr.Challenges.{Question}
use compuguessr.UserDb.{UserEntry}
use compuguessr.Router.Verify.{total_earned, record_hash, award}

-- The points of the questions that were answered right.
unfoldable pub points_won : List (Question × Bool) → ℕ
points_won [] = 0
points_won ((q, correct) ∷ rest) =
    let won = points_won rest in if correct then q.points + won else won

total_earned_lem :
    (sum : ℕ) (graded : List (Question × Bool))
    → sum < 2 ^ 32
    → total_earned sum graded ≡ (sum + points_won graded) % 2 ^ 32
unfolding total_earned points_won
total_earned_lem sum [] h = omega arith
total_earned_lem sum ((q, true) ∷ rest) h =
    omega (arith, total_earned_lem (u32 (sum + q.points)) rest)
total_earned_lem sum ((q, false) ∷ rest) h = total_earned_lem sum rest h

-- The account's completed challenges: the first `completed_count` of 32 hashes.
pub record HasRoom (u : UserEntry) : Type 0 where
  pub sized : length u.completed_hashes ≡ 32
  pub few : u.completed_count ≤ 32

abbrev pub knows : UserEntry → ℕ → Option ℕ
knows u hash =
    find_index (λ (h : ℕ). h == hash) (take (min u.completed_count 32) u.completed_hashes)

record_known : (u : UserEntry) (hash i : ℕ) → knows u hash ≡ some i → record_hash u hash ≡ u
unfolding record_hash
record_known u hash i e = rw (e, record_hash) refl

record_full :
    (u : UserEntry) (hash : ℕ)
    → knows u hash ≡ none
    → 32 ≤ u.completed_count
    → record_hash u hash ≡ u
unfolding record_hash
record_full u hash e full =
    let over : ltb u.completed_count 32 ≡ false = ground arith in rw (e, record_hash, over) refl

abbrev recorded : UserEntry → ℕ → UserEntry
recorded u hash = record u {
  completed_hashes = set u.completed_hashes u.completed_count hash;
  completed_count = u.completed_count + 1;
}

record_new :
    (u : UserEntry) (hash : ℕ)
    → knows u hash ≡ none
    → u.completed_count < 32
    → record_hash u hash ≡ recorded u hash
unfolding record_hash
record_new u hash e room =
    let under : ltb u.completed_count 32 ≡ true = ground arith in rw (e, record_hash, under) refl

get_or-take : (n : ℕ) (l : List ℕ) (i d : ℕ) → i < n → get_or (take n l) i d ≡ get_or l i d
get_or-take zero l i d h = absurd (omega arith)
get_or-take (suc n) [] i d h = refl
get_or-take (suc n) (x ∷ l) zero d h = refl
get_or-take (suc n) (x ∷ l) (suc i) d h = get_or-take n l i d (omega arith)

abbrev hash_at : UserEntry → ℕ → ℕ
hash_at u i = get_or u.completed_hashes i 0

-- What recording a hash does to the account.
pub record Records (u : UserEntry) (hash : ℕ) (v : UserEntry) : Type 0 where
  pub room : HasRoom v
  pub points : v.total_points ≡ u.total_points
  pub id : v.id ≡ u.id
  pub is_active : v.is_active ≡ u.is_active
  pub username : v.username ≡ u.username
  pub description : v.description ≡ u.description
  pub known : ((u.completed_count ≡ 32) × (v ≡ u)) ⊎ ((i : ℕ) × (knows v hash ≡ some i))
  pub keeps : (i : ℕ) → i < u.completed_count → hash_at v i ≡ hash_at u i
  pub once :
      v.completed_count
      ≡ elim (knows u hash) [ some _ ↦ u.completed_count | none ↦ min 32 (u.completed_count + 1) ]

module _ (u : UserEntry) (hash : ℕ) (r : HasRoom u) (new : knows u hash ≡ none)
    (room : u.completed_count < 32) where
  abbrev v : UserEntry
  v = recorded u hash

  abbrev is_it : ℕ → Bool
  is_it h = h == hash

  written : (i : ℕ) → hash_at v i ≡ (if u.completed_count == i then hash else hash_at u i)
  written i = get_or-set u.completed_hashes u.completed_count i hash 0 (omega (arith, r.sized))

  known_now : knows v hash ≡ some u.completed_count
  known_now =
      let count = u.completed_count in
      let all : min (count + 1) 32 ≡ count + 1 = omega arith in
      let some_of : min count 32 ≡ count = omega arith in
      let seen = rw some_of at new in
      let long = length-take (count + 1) v.completed_hashes in
      let sized = length-set u.completed_hashes count hash in
      rw all (
        find_index_of_First is_it 0 (take (count + 1) v.completed_hashes) count (record {
          below = omega (arith, long, sized, r.sized);
          passes =
              rw (get_or-take (count + 1) v.completed_hashes count 0 (omega arith))
                (ground (arith, written count));
          earlier = λ j lt.
              let old =
                find_index-none is_it 0 (take count u.completed_hashes) seen j
                  (omega (arith, length-take count u.completed_hashes, r.sized)) in
              let same = get_or-take count u.completed_hashes j 0 lt in
              rw (get_or-take (count + 1) v.completed_hashes j 0 (omega arith))
                (ground (arith, written j, old, same));
        }))

  recorded-Records : Records u hash v
  recorded-Records = record {
    room = record {
      sized = length-set u.completed_hashes u.completed_count hash ∙ r.sized;
      few = omega arith;
    };
    points = refl;
    id = refl;
    is_active = refl;
    username = refl;
    description = refl;
    known = inr (u.completed_count, known_now);
    keeps = λ i lt. ground (arith, written i);
    once = rw new (omega arith);
  }

-- On an account that counts at most 32 completed challenges, recording a hash keeps the points, the
-- texts and the hashes that are there; the count of completed challenges grows by one exactly if
-- the hash is not among them and there are less than 32. Afterwards the hash is among the account's
-- challenges; only an account that has 32 already may stay as it is instead.
pub record_hash-Records :
    (u : UserEntry) (hash : ℕ) → HasRoom u → Records u hash (record_hash u hash)
record_hash-Records u hash r = elim (Option-cases (knows u hash)) [
  | inr (i, e) ↦ rw (record_known u hash i e) (record {
    room = r;
    points = refl;
    id = refl;
    is_active = refl;
    username = refl;
    description = refl;
    known = inr (i, e);
    keeps = λ j lt. refl;
    once = rw e refl;
  })
  | inl e ↦ elim (Bool-cases (ltb u.completed_count 32)) [
    | inl under ↦
        let room : u.completed_count < 32 = ground arith in
        rw (record_new u hash e room) (recorded-Records u hash r e room)
    | inr full ↦
        let over : 32 ≤ u.completed_count = ground arith in
        rw (record_full u hash e over) (record {
          room = r;
          points = refl;
          id = refl;
          is_active = refl;
          username = refl;
          description = refl;
          known = inl (omega (arith, r.few), refl);
          keeps = λ j lt. refl;
          once = rw e (omega (arith, r.few));
        })
  ]
]

pub award-Records :
    (u : UserEntry) (earned hash : ℕ)
    → HasRoom u
    → Records (record u { total_points = u32 (u.total_points + earned) }) hash (award u earned hash)
unfolding award
award-Records u earned hash r =
    record_hash-Records (record u { total_points = u32 (u.total_points + earned) }) hash
      (record { sized = r.sized; few = r.few })

-- What has been recorded, or did not fit, is not recorded by a second award.
award_settled :
    (u : UserEntry) (earned hash : ℕ)
    → HasRoom u
    → let once = award u earned hash in
      award once earned hash ≡ record once { total_points = u32 (once.total_points + earned) }
unfolding award
award_settled u earned hash r =
    let once = award u earned hash in
    let first = award-Records u earned hash r in
    let next = record once { total_points = u32 (once.total_points + earned) } in
    elim (Option-cases (knows once hash)) [
      | inr (i, e) ↦ record_known next hash i e
      | inl e ↦ elim first.known [
        | inl (full, same) ↦
            record_full next hash e (omega (arith, full, ap (λ x. x.completed_count) same))
        | inr (i, e') ↦ absurd (ground (arith, e, e'))
      ]
    ]

-- What a full score leaves of an account that counts at most 32 completed challenges: the points
-- are added to what it had, as 32 bits, and the challenge is among its completed ones, unless it
-- had 32 of them already. A second full score in the same challenge adds the points again and
-- changes nothing else of the account.
pub award_repeats :
    (u : UserEntry) (earned hash : ℕ)
    → HasRoom u
    → let once = award u earned hash in
      let twice = award once earned hash in
      (once.total_points ≡ (u.total_points + earned) % 2 ^ 32)
      × ((u.completed_count ≡ 32) ⊎ ((i : ℕ) × (knows once hash ≡ some i)))
      × (twice ≡ record once { total_points = (u.total_points + 2 * earned) % 2 ^ 32 })
award_repeats u earned hash r =
    let once = award u earned hash in
    let first = award-Records u earned hash r in
    let again = u32 (once.total_points + earned) in
    let sum : again ≡ (u.total_points + 2 * earned) % 2 ^ 32 = omega (arith, first.points) in
    let points = ap (λ n. record once { total_points = n }) sum in
    (
      first.points,
      elim first.known [ inl (full, e) ↦ inl full | inr known ↦ inr known ],
      award_settled u earned hash r ∙ points,
    )

-- The sum of a submission is the points of the questions answered right, as 32 bits.
pub total_earned_points :
    (graded : List (Question × Bool)) → total_earned 0 graded ≡ points_won graded % 2 ^ 32
total_earned_points graded = omega (arith, total_earned_lem 0 graded (omega arith))
