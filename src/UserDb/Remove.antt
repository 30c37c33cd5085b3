-- ===== src/UserDb/Remove.antt =====
-- `cg_userdb_delete` ends one account.
use compuguessr.Base.{
  ℕ, ◌+◌, ◌-◌, ◌<◌, ◌≡◌, refl, ap, ◌∙◌, ◌≢◌, ◌⊎◌, inl, inr, true, false, Option, none, some, arith,
  length, get_or-set, set, length-set, ◌==◌, ltb, if◌then◌else◌, Option-cases,
}
use compuguessr.Base.Search.{count_if-set, count_if_pos}
use compuguessr.UserDb.{
  UserDb, UserEntry, pool_size, zero_entry, is_idle, find_by_id, delete, delete_at,
}
use compuguessr.UserDb.Invariant.{IsValid, Unique, user_at, is_taken, find_by_id_iff}

-- What the end of the account at place `slot` does.
pub record Removes (db : UserDb) (slot : ℕ) (db' : UserDb) : Type 0 where
  pub valid : IsValid db'
  pub unique : Unique db → Unique db'
  pub idle : is_idle (user_at db' slot) ≡ true
  pub others : (j : ℕ) → j ≢ slot → user_at db' j ≡ user_at db j
  pub counts : db'.hdr.count + 1 ≡ db.hdr.count

module _ (db : UserDb) (v : IsValid db) (i : ℕ) (below : i < pool_size)
    (busy : is_idle (user_at db i) ≡ false) where
  abbrev ended : UserEntry
  ended = let e = user_at db i in record e { is_active = 0 }

  abbrev removed : UserDb
  removed =
      let hdr = db.hdr in
      record {
        hdr = record hdr { count = if ltb 0 hdr.count then hdr.count - 1 else hdr.count };
        pool = set db.pool i ended;
      }

  inside : i < length db.pool
  inside = omega (arith, v.pooled)

  entry_removed : (j : ℕ) → user_at removed j ≡ (if i == j then ended else user_at db j)
  entry_removed j = get_or-set db.pool i j ended zero_entry inside

  some_busy : 0 < db.hdr.count
  some_busy =
      let p = count_if_pos is_taken zero_entry db.pool i inside (rw busy refl) in
      omega (arith, v.counted)

  removed-Removes : Removes db i removed
  removed-Removes = record {
    valid = record {
      pooled = length-set db.pool i ended ∙ v.pooled;
      ids = λ j lt active. ground (arith, entry_removed j, v.ids j);
      named = λ j lt active. ground (arith, entry_removed j, v.named j);
      counted = ground (
        arith,
        count_if-set is_taken zero_entry db.pool i ended inside,
        busy,
        v.counted,
        some_busy,
      );
    };
    unique = λ u j k lt lt' active active' same.
        ground (arith, entry_removed j, entry_removed k, u j k lt lt');
    idle = ground (arith, entry_removed i);
    others = λ j ne. ground (arith, entry_removed j);
    counts = ground (arith, some_busy);
  }

  delete_at_busy : delete_at db (some i) ≡ (0, removed)
  unfolding delete_at
  delete_at_busy = rw busy refl

delete_with :
    (db : UserDb) (id : ℕ) (o : Option ℕ) → find_by_id db id ≡ o → delete db id ≡ delete_at db o
unfolding delete
delete_with db id o e = ap (delete_at db) e

delete_absent : (db : UserDb) (id : ℕ) → find_by_id db id ≡ none → delete db id ≡ (1, db)
unfolding delete_at
delete_absent db id e = delete_with db id none e

-- On a valid database, the deletion of an id ends in one of two ways: the account with that id was
-- active, the code is 0, its place is idle and one account less is counted, the database stays
-- valid (and free of equal names where it was), and every other place is as before; or no active
-- account has the id, the code is 1 and nothing changes.
pub delete_cases :
    (db : UserDb) (id : ℕ)
    → IsValid db
    → ((slot : ℕ) × (id ≡ slot + 1)
        × (is_idle (user_at db slot) ≡ false)
        × ((delete db id).0 ≡ 0)
        × Removes db slot (delete db id).1)
      ⊎ ((find_by_id db id ≡ none) × (delete db id ≡ (1, db)))
delete_cases db id v = elim (Option-cases (find_by_id db id)) [
  | inl e ↦ inr (e, delete_absent db id e)
  | inr (i, e) ↦
      let (below, busy, same) = (find_by_id_iff db id i v).0 e in
      let run = delete_with db id (some i) e ∙ delete_at_busy db v i below busy in
      inl (i, same, busy, rw run refl, rw run (removed-Removes db v i below busy))
]
