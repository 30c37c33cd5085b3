-- ===== src/UserDb/Create.antt =====
-- `cg_userdb_create`: which calls succeed, and what they do to the accounts.
use compuguessr.Base.{
  ℕ, ◌+◌, ◌≤◌, ◌<◌, ◌≡◌, refl, ◌∙◌, ◌≢◌, ◌⊎◌, inl, inr, Bool, true, false, Option, none, some, List,
  arith, length, length-take, get_or-set, length-set, replicate, ◌==◌, ltb, if◌then◌else◌,
  Bool-cases, Option-cases,
}
use compuguessr.Base.Search.{
  count_if-set, count_if_le, count_if-not, find_index, find_index-First, First,
}
use compuguessr.Base.Text.{c_str, c_str-NoNul, c_str-write_str, NoNul-take}
use compuguessr.Base.Words.{u32}
use compuguessr.Util.Hash.{Crc, hash_str}
use compuguessr.UserDb.{
  UserDb, UserEntry, Created, pool_size, zero_entry, is_idle, find, cut_name, registered, register,
  register_at, create,
}
use compuguessr.UserDb.Invariant.{IsValid, user_at, is_taken}

module _ (hw : Crc) where
  -- What a successful registration does.
  pub record Registers (db : UserDb) (username password : List ℕ) (has_out : Bool) (r : Created)
      : Type 0 where
    pub slot : ℕ
    pub below : slot < pool_size
    pub was_idle : is_idle (user_at db slot) ≡ true
    pub code : r.code ≡ 0
    pub valid : IsValid r.db
    pub name : c_str (user_at r.db slot).username ≡ cut_name username
    pub pass_hash : (user_at r.db slot).pass_hash ≡ hash_str hw (c_str password)
    pub busy : is_idle (user_at r.db slot) ≡ false
    pub no_text : (user_at r.db slot).description ≡ replicate 2048 0
    pub no_hashes : (user_at r.db slot).completed_hashes ≡ replicate 32 0
    pub none_completed : (user_at r.db slot).completed_count ≡ 0
    pub out : r.out ≡ (if has_out then some (user_at r.db slot) else none)
    pub others : (j : ℕ) → j ≢ slot → user_at r.db j ≡ user_at db j
    pub counts : r.db.hdr.count ≡ db.hdr.count + 1

  cut_name-length : (username : List ℕ) → length (cut_name username) ≤ 31
  cut_name-length username = elim (Bool-cases (ltb 31 (length (c_str username)))) [
    | inl e ↦ rw e (omega (arith, length-take 31 (c_str username)))
    | inr e ↦ rw e (ground (arith, length-take (length (c_str username)) (c_str username)))
  ]

  pub stored_name :
      (old : UserEntry) (i : ℕ) (username password : List ℕ)
      → c_str (registered hw old i username password).username ≡ cut_name username
  unfolding registered
  stored_name old i username password = c_str-write_str old.username (cut_name username) (
      NoNul-take (if ltb 31 (length (c_str username)) then 31 else length (c_str username))
        (c_str username) (c_str-NoNul username))

  module _ (db : UserDb) (username password : List ℕ) (has_out : Bool) (v : IsValid db) where
    module _ (i : ℕ) (f : First is_idle zero_entry db.pool i) where
      abbrev entry : UserEntry
      entry = registered hw (user_at db i) i username password

      abbrev result : Created
      result = register hw db i username password has_out

      entry_new : (j : ℕ) → user_at result.db j ≡ (if i == j then entry else user_at db j)
      entry_new j = get_or-set db.pool i j entry zero_entry f.below

      entry_busy : is_idle entry ≡ false
      unfolding registered
      entry_busy = refl

      entry_id : entry.id ≡ i + 1
      unfolding registered
      entry_id = refl

      entry_hash : entry.pass_hash ≡ hash_str hw (c_str password)
      unfolding registered
      entry_hash = refl

      entry_blank :
          (entry.description ≡ replicate 2048 0)
          × (entry.completed_hashes ≡ replicate 32 0)
          × (entry.completed_count ≡ 0)
      unfolding registered
      entry_blank = (refl, refl, refl)

      at_slot : user_at result.db i ≡ entry
      at_slot = ground (arith, entry_new i)

      short : length (c_str entry.username) ≤ 31
      short = rw (stored_name (user_at db i) i username password) (cut_name-length username)

      bound : db.hdr.count ≤ pool_size
      bound = omega (arith, v.counted, v.pooled, count_if_le is_taken db.pool)

      one_more : u32 (db.hdr.count + 1) ≡ db.hdr.count + 1
      one_more = omega (arith, bound)

      register-IsValid : IsValid result.db
      register-IsValid = record {
        pooled = length-set db.pool i entry ∙ v.pooled;
        ids = λ j lt busy. ground (arith, entry_new j, v.ids j, entry_id);
        named = λ j lt busy. ground (arith, entry_new j, v.named j, short);
        counted = ground (
          arith,
          count_if-set is_taken zero_entry db.pool i entry f.below,
          f.passes,
          v.counted,
          one_more,
          entry_busy,
        );
      }

      register-Registers : Registers db username password has_out result
      register-Registers = record {
        slot = i;
        below = omega (arith, f.below, v.pooled);
        was_idle = f.passes;
        code = refl;
        valid = register-IsValid;
        name = rw at_slot (stored_name (user_at db i) i username password);
        pass_hash = rw at_slot entry_hash;
        busy = rw at_slot entry_busy;
        no_text = rw at_slot entry_blank.0;
        no_hashes = rw at_slot entry_blank.1;
        none_completed = rw at_slot entry_blank.2;
        out = rw at_slot refl;
        others = λ j ne. ground (arith, entry_new j);
        counts = one_more;
      }

  place_cases :
      (db : UserDb) (username password : List ℕ) (has_out : Bool) (place : Option ℕ)
      → IsValid db
      → find_index is_idle db.pool ≡ place
      → let r = register_at hw db place username password has_out in
        ((r ≡ record { code = 2; db = db; out = none }) × (db.hdr.count ≡ pool_size))
        ⊎ Registers db username password has_out r
  unfolding register_at
  place_cases db username password has_out none v full =
      inl (refl, omega (arith, count_if-not is_idle db.pool full, v.counted, v.pooled))
  place_cases db username password has_out (some i) v e = inr (
      register-Registers db username password has_out v i
        (find_index-First is_idle zero_entry db.pool i e))

  create_new :
      (db : UserDb) (username password : List ℕ) (has_out : Bool)
      → find db username ≡ none
      → create hw db username password has_out
        ≡ register_at hw db (find_index is_idle db.pool) username password has_out
  unfolding create
  create_new db username password has_out e = rw (e, create) refl

  create_known :
      (db : UserDb) (username password : List ℕ) (has_out : Bool) (i : ℕ)
      → find db username ≡ some i
      → create hw db username password has_out ≡ record { code = 1; db = db; out = none }
  unfolding create
  create_known db username password has_out i e = rw (e, create) refl

  -- On a valid database a registration ends in one of three ways: code 1 exactly where the name is
  -- found, with the database as it was; code 2 where it is not found and the header counts
  -- 1024 accounts, with the database as it was; otherwise code 0, and a place that was idle holds
  -- an active account with the first 31 bytes of the name and the hash of the password, of which
  -- `out` gets a copy. Then the database is valid, every other place is as before and the count is
  -- one more.
  pub create_cases :
      (db : UserDb) (username password : List ℕ) (has_out : Bool)
      → IsValid db
      → let r = create hw db username password has_out in
        ((r ≡ record { code = 1; db = db; out = none }) × (find db username ≢ none))
        ⊎ ((r ≡ record { code = 2; db = db; out = none })
            × (find db username ≡ none)
            × (db.hdr.count ≡ pool_size))
        ⊎ (Registers db username password has_out r × (find db username ≡ none))
  create_cases db username password has_out v = elim (Option-cases (find db username)) [
    | inr (i, e) ↦ inl (
      create_known db username password has_out i e,
      λ none_found. absurd (ground (arith, e, none_found)),
    )
    | inl e ↦
        let cases = place_cases db username password has_out (find_index is_idle db.pool) v refl in
        rw (create_new db username password has_out e) (elim cases [
          | inl (full, count) ↦ inr (inl (full, e, count))
          | inr reg ↦ inr (inr (reg, e))
        ])
  ]

  pub create-IsValid :
      (db : UserDb) (username password : List ℕ) (has_out : Bool)
      → IsValid db
      → IsValid (create hw db username password has_out).db
  create-IsValid db username password has_out v =
      elim (create_cases db username password has_out v) [
        | inl (known, _) ↦ rw known v
        | inr (inl (full, _, _)) ↦ rw full v
        | inr (inr (reg, _)) ↦ reg.valid
      ]
