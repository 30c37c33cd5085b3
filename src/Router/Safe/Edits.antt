-- ===== src/Router/Safe/Edits.antt =====
-- Changes of one account keep the user database well formed.
use compuguessr.Base.{
  ℕ, zero, suc, ◌≤◌, ◌<◌, ◌≡◌, refl, ◌∙◌, inl, inr, Bool, false, some, List, [], arith, length,
  length-set, length-take, length-replicate, take, replicate, get_or-set, set, ◌==◌, if◌then◌else◌,
  Bool-cases,
}
use compuguessr.Base.Search.{count_if-set, find_index-First}
use compuguessr.Base.Text.{c_str, c_str-NoNul, c_str-write_str, NoNul-take, write_str}
use compuguessr.UserDb.{
  UserDb, UserEntry, pool_size, zero_entry, is_idle, is_named, find, find_by_id, create, delete,
}
use compuguessr.UserDb.Invariant.{IsValid, user_at, is_taken, is_named_iff, find_by_id_iff}
use compuguessr.UserDb.Create.{create_cases}
use compuguessr.UserDb.Remove.{delete_cases}
use compuguessr.Util.Hash.{Crc}
use compuguessr.Router.Profile.{describe}
use compuguessr.Router.Safe.{IsUser, AreUsers}
use compuguessr.Router.Verify.{award, award_user}
use compuguessr.Router.Verify.Score.{award-Records}

abbrev pub edit : UserDb → ℕ → UserEntry → UserDb
edit db k e = record db { pool = set db.pool k e }

-- An account that is found by its id, or by its name.
pub record IsAccount (db : UserDb) (k : ℕ) : Type 0 where
  pub below : k < pool_size
  pub busy : is_idle (user_at db k) ≡ false

pub find_by_id-IsAccount :
    (db : UserDb) (id k : ℕ) → IsValid db → find_by_id db id ≡ some k → IsAccount db k
find_by_id-IsAccount db id k v e =
    let (below, busy, same) = (find_by_id_iff db id k v).0 e in
    record { below = below; busy = busy }

pub find-IsAccount :
    (db : UserDb) (name : List ℕ) (k : ℕ) → IsValid db → find db name ≡ some k → IsAccount db k
find-IsAccount db name k v e =
    let f = find_index-First (is_named name) zero_entry db.pool k e in
    record {
      below = omega (arith, f.below, v.pooled);
      busy = ((is_named_iff name (user_at db k)).0 f.passes).0;
    }

module _ (db : UserDb) (k : ℕ) (u : AreUsers db) (a : IsAccount db k) where
  module _ (e : UserEntry) (id : e.id ≡ (user_at db k).id)
      (active : e.is_active ≡ (user_at db k).is_active) (good : IsUser e) where
    v : IsValid db
    v = u.valid

    inside : k < length db.pool
    inside = omega (arith, v.pooled, a.below)

    edited : (j : ℕ) → user_at (edit db k e) j ≡ (if k == j then e else user_at db j)
    edited j = get_or-set db.pool k j e zero_entry inside

    still_busy : is_idle e ≡ false
    still_busy = rw active a.busy

    edit-AreUsers : AreUsers (edit db k e)
    edit-AreUsers = record {
      valid = record {
        pooled = length-set db.pool k e ∙ v.pooled;
        ids = λ j lt busy. ground (arith, edited j, v.ids j, id, a.busy);
        named = λ j lt busy. ground (arith, edited j, v.named j, good.name);
        counted = ground (
          arith,
          count_if-set is_taken zero_entry db.pool k e inside,
          still_busy,
          a.busy,
          v.counted,
        );
      };
      each = λ j lt busy. elim (Bool-cases (k == j)) [
        | inl same ↦ rw (edited j, same) good
        | inr other ↦ rw (edited j, other) (u.each j lt (rw (edited j, other) at busy))
      ];
    }

  old : IsUser (user_at db k)
  old = u.each k a.below a.busy

  described_text :
      (description : List ℕ)
      → length (c_str (write_str (user_at db k).description (take 2047 (c_str description)))) ≤ 2047
  described_text description =
      rw
        (c_str-write_str (user_at db k).description (take 2047 (c_str description))
          (NoNul-take 2047 (c_str description) (c_str-NoNul description)))
        (omega (arith, length-take 2047 (c_str description)))

  pub describe-AreUsers : (description : List ℕ) → AreUsers (describe db k description)
  describe-AreUsers description = edit-AreUsers _ refl refl (record {
    room = record { sized = old.room.sized; few = old.room.few };
    name = old.name;
    text = described_text description;
  })

  pub award_user-AreUsers : (earned hash : ℕ) → AreUsers (award_user db (some k) earned hash)
  unfolding award_user
  award_user-AreUsers earned hash =
      let r = award-Records (user_at db k) earned hash old.room in
      edit-AreUsers (award (user_at db k) earned hash) r.id r.is_active
        (record { room = r.room; name = rw r.username old.name; text = rw r.description old.text })

c_str_zeroes : (n : ℕ) → c_str (replicate n 0) ≡ []
unfolding c_str replicate
c_str_zeroes zero = refl
c_str_zeroes (suc n) = refl

-- A registration, however it ends, keeps the database well formed.
pub create-AreUsers :
    (hw : Crc) (db : UserDb) (name word : List ℕ) (has_out : Bool)
    → AreUsers db
    → AreUsers (create hw db name word has_out).db
create-AreUsers hw db name word has_out u = elim (create_cases hw db name word has_out u.valid) [
  | inl (known, _) ↦ rw known u
  | inr (inl (full, _, _)) ↦ rw full u
  | inr (inr (reg, _)) ↦ record {
    valid = reg.valid;
    each = λ j lt busy. elim (Bool-cases (j == reg.slot)) [
      | inl same ↦
          let here : j ≡ reg.slot = ground arith in
          rw here (record {
            room = record {
              sized = rw reg.no_hashes (length-replicate 32 0);
              few = rw reg.none_completed (omega arith);
            };
            name = reg.valid.named reg.slot reg.below reg.busy;
            text = rw (reg.no_text, c_str_zeroes 2048) (omega arith);
          })
      | inr other ↦
          let kept = reg.others j (ground arith) in rw kept (u.each j lt (rw kept at busy))
    ];
  }
]

-- So does a deletion.
pub delete-AreUsers : (db : UserDb) (id : ℕ) → AreUsers db → AreUsers (delete db id).1
delete-AreUsers db id u = elim (delete_cases db id u.valid) [
  | inr (_, same) ↦ rw same u
  | inl (slot, _, busy, _, gone) ↦ record {
    valid = gone.valid;
    each = λ j lt active. elim (Bool-cases (j == slot)) [
      | inl same ↦
          let here : j ≡ slot = ground arith in
          absurd (ground (arith, (rw here at active), gone.idle))
      | inr other ↦
          let kept = gone.others j (ground arith) in rw kept (u.each j lt (rw kept at active))
    ];
  }
]
