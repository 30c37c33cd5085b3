-- ===== src/UserDb/Names.antt =====
-- The names of the accounts after `cg_userdb_create`: which of them are found, and which twice.
use compuguessr.Base.{
  ℕ, ◌≤◌, ◌<◌, ◌≡◌, sym, ap, ◌∙◌, ◌≢◌, ◌⊎◌, inl, inr, Bool, false, none, some, List, arith, length,
  take_all, ◌==◌, ltb, if◌then◌else◌, Bool-cases, Option-cases,
}
use compuguessr.Base.Text.{c_str}
use compuguessr.Util.Hash.{Crc}
use compuguessr.Util.Memory.{same_str, same_str_iff}
use compuguessr.UserDb.{UserDb, Created, pool_size, is_idle, find, cut_name, create}
use compuguessr.UserDb.Invariant.{IsValid, Unique, user_at, find_iff, long_name_not_found}
use compuguessr.UserDb.Create.{Registers, create_cases, create-IsValid}

-- What is found after a successful registration of `username`.
pub record Finds (db : UserDb) (username : List ℕ) (r : Created) : Type 0 where
  pub slot : ℕ
  pub unique : Unique r.db
  pub finds : (q : List ℕ) → find r.db q ≡ (if same_str q username then some slot else find db q)

module _ (hw : Crc) where
  module _ (db : UserDb) (username password : List ℕ) (has_out : Bool) (r : Created)
      (v : IsValid db) (u : Unique db) (short : length (c_str username) ≤ 31)
      (new : find db username ≡ none) (reg : Registers hw db username password has_out r) where
    new_name : c_str (user_at r.db reg.slot).username ≡ c_str username
    new_name = reg.name ∙ whole_name
      where
        whole_name : cut_name username ≡ c_str username
        whole_name =
            let room : ltb 31 (length (c_str username)) ≡ false = ground arith in
            rw room (take_all (c_str username))

    -- No other active account has the name.
    name_unused :
        (j : ℕ)
        → j < pool_size
        → is_idle (user_at db j) ≡ false
        → c_str (user_at db j).username ≢ c_str username
    name_unused j lt busy same =
        let found = (find_iff db username j v u).1 (lt, busy, same) in
        absurd (ground (arith, found, new))

    -- An active account is the new one or was there before.
    old_or_new :
        (j : ℕ)
        → j < pool_size
        → is_idle (user_at r.db j) ≡ false
        → (j ≡ reg.slot)
          ⊎ ((user_at r.db j ≡ user_at db j)
              × (is_idle (user_at db j) ≡ false)
              × (c_str (user_at r.db j).username ≢ c_str username))
    old_or_new j lt busy = elim (Bool-cases (j == reg.slot)) [
      | inl same ↦ inl (ground arith)
      | inr other ↦
          let kept = reg.others j (ground arith) in
          let was_busy : is_idle (user_at db j) ≡ false = rw kept at busy in
          inr (kept, was_busy, rw kept (name_unused j lt was_busy))
    ]

    registered-Unique : Unique r.db
    registered-Unique i j lt lt' busy busy' same = elim (old_or_new i lt busy) [
      | inl new_i ↦ elim (old_or_new j lt' busy') [
        | inl new_j ↦ new_i ∙ sym new_j
        | inr (kept, _, differs) ↦
            absurd (differs (sym same ∙ ap (λ k. c_str (user_at r.db k).username) new_i ∙ new_name))
      ]
      | inr (kept, was_busy, differs) ↦ elim (old_or_new j lt' busy') [
        | inl new_j ↦
            absurd (differs (same ∙ ap (λ k. c_str (user_at r.db k).username) new_j ∙ new_name))
        | inr (kept', was_busy', _) ↦
            u i j lt lt' was_busy was_busy'
              (sym (ap (λ e. c_str e.username) kept) ∙ same ∙ ap (λ e. c_str e.username) kept')
      ]
    ]

    registered_finds :
        (q : List ℕ) → find r.db q ≡ (if same_str q username then some reg.slot else find db q)
    registered_finds q = elim (Bool-cases (same_str q username)) [
      | inl same ↦
          let same_name = (same_str_iff q username).0 same in
          rw same (
            (find_iff r.db q reg.slot reg.valid registered-Unique).1
              (reg.below, reg.busy, new_name ∙ sym same_name))
      | inr other ↦ rw other (elim (Option-cases (find r.db q)) [
        | inr (j, e) ↦
            let (lt, busy, name) = (find_iff r.db q j reg.valid registered-Unique).0 e in
            e
            ∙ sym (elim (old_or_new j lt busy) [
              | inl new_j ↦ absurd (
                  differs q other
                    (sym name ∙ ap (λ k. c_str (user_at r.db k).username) new_j ∙ new_name))
              | inr (kept, was_busy, _) ↦
                  (find_iff db q j v u).1
                    (lt, was_busy, sym (ap (λ e. c_str e.username) kept) ∙ name)
            ])
        | inl e ↦ elim (Option-cases (find db q)) [
          | inl e' ↦ e ∙ sym e'
          | inr (j, e') ↦ absurd (lost q j e e')
        ]
      ])
    ]
      where
        differs : (q : List ℕ) → same_str q username ≡ false → c_str q ≢ c_str username
        differs q other same = let t = (same_str_iff q username).1 same in absurd (ground arith)

        was_other : (j : ℕ) → is_idle (user_at db j) ≡ false → j ≢ reg.slot
        was_other j busy same =
            let there = rw same at busy in absurd (ground (arith, there, reg.was_idle))

        lost : (q : List ℕ) (j : ℕ) → find r.db q ≡ none → find db q ≢ some j
        lost q j gone e =
            let (lt, busy, name) = (find_iff db q j v u).0 e in
            let kept = reg.others j (was_other j busy) in
            let found =
              (find_iff r.db q j reg.valid registered-Unique).1 (lt, rw kept busy, rw kept name) in
            absurd (ground (arith, gone, found))

  -- Where no two accounts of a valid database have the same name, a successful registration of a
  -- name of at most 31 bytes leaves no two accounts of the same name; the search for that name
  -- then finds one account, and the search for any other name what it found before.
  pub create-Finds :
      (db : UserDb) (username password : List ℕ) (has_out : Bool)
      → IsValid db
      → Unique db
      → length (c_str username) ≤ 31
      → (create hw db username password has_out).code ≡ 0
      → Finds db username (create hw db username password has_out)
  create-Finds db username password has_out v u short success =
      elim (create_cases hw db username password has_out v) [
        | inl (known, _) ↦ absurd (ground (arith, sym (ap Created.code known) ∙ success))
        | inr (inl (full, _, _)) ↦ absurd (ground (arith, sym (ap Created.code full) ∙ success))
        | inr (inr (reg, new)) ↦
            let r = create hw db username password has_out in
            record {
              slot = reg.slot;
              unique = registered-Unique db username password has_out r v u short new reg;
              finds = registered_finds db username password has_out r v u short new reg;
            }
      ]

  -- On a valid database, a name of more than 31 bytes is not found after it was registered, and
  -- its next registration does not report that it is taken.
  pub long_name_repeats :
      (db : UserDb) (username password password' : List ℕ) (has_out : Bool)
      → IsValid db
      → 31 < length (c_str username)
      → let r = create hw db username password has_out in
        (find r.db username ≡ none) × ((create hw r.db username password' has_out).code ≢ 1)
  long_name_repeats db username password password' has_out v long =
      let r = create hw db username password has_out in
      let valid = create-IsValid hw db username password has_out v in
      let gone = long_name_not_found r.db username valid long in
      (
        gone,
        elim (create_cases hw r.db username password' has_out valid) [
          | inl (_, found) ↦ absurd (found gone)
          | inr (inl (full, _, _)) ↦ rw full (λ one. absurd (omega arith))
          | inr (inr (reg, _)) ↦ rw reg.code (λ one. absurd (omega arith))
        ],
      )
