-- ===== src/UserDb/Invariant.antt =====
-- When a user database is well formed, and its start.
use compuguessr.Base.{
  ℕ, zero, suc, ◌+◌, ◌≤◌, ◌<◌, ◌≡◌, refl, sym, ◌∙◌, ◌≢◌, inl, inr, ◌↔◌, Bool, true, false, not,
  none, some, List, arith, length, get_or, length-replicate, get_or-replicate, replicate, ◌==◌,
  Bool-cases,
}
use compuguessr.Base.Search.{count_if, find_index-First, find_index_of_First, find_index_of_none}
use compuguessr.Base.Text.{c_str}
use compuguessr.Util.Memory.{same_str_iff}
use compuguessr.UserDb.{
  UserDb, UserEntry, pool_size, magic_bytes, zero_entry, is_idle, is_named, has_id, find,
  find_by_id, init, new_file,
}

abbrev pub user_at : UserDb → ℕ → UserEntry
user_at db i = get_or db.pool i zero_entry

abbrev pub is_taken : UserEntry → Bool
is_taken e = not (is_idle e)

-- The active entries have the id of their place and a name that ends within its 32 bytes.
pub record IsValid (db : UserDb) : Type 0 where
  pub pooled : length db.pool ≡ pool_size
  pub ids : (i : ℕ) → i < pool_size → is_idle (user_at db i) ≡ false → (user_at db i).id ≡ i + 1
  pub named :
      (i : ℕ)
      → i < pool_size
      → is_idle (user_at db i) ≡ false
      → length (c_str (user_at db i).username) ≤ 31
  pub counted : count_if is_taken db.pool ≡ db.hdr.count

-- No two active entries have the same name.
abbrev pub Unique : UserDb → Type 0
Unique db =
    (i j : ℕ)
    → i < pool_size
    → j < pool_size
    → is_idle (user_at db i) ≡ false
    → is_idle (user_at db j) ≡ false
    → c_str (user_at db i).username ≡ c_str (user_at db j).username
    → i ≡ j

pub is_named_iff :
    (q : List ℕ) (e : UserEntry)
    → (is_named q e ≡ true) ↔ ((is_idle e ≡ false) × (c_str e.username ≡ c_str q))
is_named_iff q e = ground (arith, same_str_iff e.username q)

-- In a valid database without two accounts of one name, the search by name ends at place `i`
-- exactly if the entry there is active and has that name.
pub find_iff :
    (db : UserDb) (q : List ℕ) (i : ℕ)
    → IsValid db
    → Unique db
    → (find db q ≡ some i) ↔ (
        (i < pool_size)
        × (is_idle (user_at db i) ≡ false)
        × (c_str (user_at db i).username ≡ c_str q))
find_iff db q i v u = (
  (λ e.
      let f = find_index-First (is_named q) zero_entry db.pool i e in
      let (busy, same) = (is_named_iff q (user_at db i)).0 f.passes in
      (omega (arith, f.below, v.pooled), busy, same)),
  (λ (lt, busy, same). find_index_of_First (is_named q) zero_entry db.pool i (record {
    below = omega (arith, v.pooled);
    passes = (is_named_iff q (user_at db i)).1 (busy, same);
    earlier = λ j before. elim (Bool-cases (is_named q (user_at db j))) [
      | inr e ↦ e
      | inl e ↦
          let (busy', same') = (is_named_iff q (user_at db j)).0 e in
          let equal = u i j lt (omega arith) busy busy' (same ∙ sym same') in absurd (omega arith)
    ];
  })),
)

-- In a valid database the search for an id ends at place `i` exactly if the id is `i + 1` and the
-- entry there is active.
pub find_by_id_iff :
    (db : UserDb) (id i : ℕ)
    → IsValid db
    → (find_by_id db id ≡ some i)
      ↔ ((i < pool_size) × (is_idle (user_at db i) ≡ false) × (id ≡ i + 1))
find_by_id_iff db id i v = (
  (λ e.
      let f = find_index-First (has_id id) zero_entry db.pool i e in
      ground (arith, f.below, f.passes, v.pooled, v.ids i)),
  (λ (lt, busy, same). find_index_of_First (has_id id) zero_entry db.pool i (record {
    below = omega (arith, v.pooled);
    passes = ground (arith, v.ids i);
    earlier = λ j before. ground (arith, v.ids j);
  })),
)

-- In a valid database no search for a name of more than 31 bytes finds an account.
pub long_name_not_found :
    (db : UserDb) (username : List ℕ)
    → IsValid db
    → 31 < length (c_str username)
    → find db username ≡ none
long_name_not_found db username v long =
    find_index_of_none (is_named username) zero_entry db.pool λ j lt.
      elim (Bool-cases (is_named username (user_at db j))) [
        | inr e ↦ e
        | inl e ↦
            let (busy, same) = (is_named_iff username (user_at db j)).0 e in
            let short = v.named j (omega (arith, v.pooled)) busy in
            absurd (omega (arith, (rw same at short)))
      ]

count_if-zeroes : (n : ℕ) → count_if is_taken (replicate n zero_entry) ≡ 0
unfolding count_if replicate
count_if-zeroes zero = refl
count_if-zeroes (suc n) = omega (arith, count_if-zeroes n)

pub new_file-IsValid : IsValid new_file
new_file-IsValid = record {
  pooled = length-replicate pool_size zero_entry;
  ids = λ i lt busy. absurd (ground (arith, get_or-replicate pool_size i zero_entry));
  named = λ i lt busy. absurd (ground (arith, get_or-replicate pool_size i zero_entry));
  counted = count_if-zeroes pool_size;
}

pub new_file-Unique : Unique new_file
new_file-Unique i j lt lt' busy = absurd (ground (arith, get_or-replicate pool_size i zero_entry))

-- What the start gives, where it gives a database: it has the magic number, it is valid if a file
-- that was not empty held a valid one, and it has no two accounts of one name if such a file had
-- none.
pub init_cases :
    (st_size : ℕ) (db db' : UserDb)
    → (st_size ≢ 0 → IsValid db × Unique db)
    → init (some (st_size, db)) ≡ some db'
    → (db'.hdr.magic ≡ magic_bytes) × IsValid db' × Unique db'
unfolding init
init_cases st_size db db' kept e = elim (Bool-cases (st_size == 0)) [
  | inl new ↦
      let same : new_file ≡ db' = ground (arith, (rw new at e)) in
      rw (sym same) (refl, new_file-IsValid, new_file-Unique)
  | inr old ↦ elim (Bool-cases (db.hdr.magic == magic_bytes)) [
    | inr wrong ↦ absurd (ground (arith, (rw (old, wrong) at e)))
    | inl right ↦
        let same : db ≡ db' = ground (arith, (rw (old, right) at e)) in
        let (valid, unique) = kept (ground arith) in rw (sym same) (ground arith, valid, unique)
  ]
]
