-- ===== src/Env/Settings.antt =====
-- The socket's path, as the environment sets it.
use compuguessr.Base.{
  ℕ, ◌≤◌, ◌≡◌, refl, sym, ap, ◌∙◌, inl, inr, Bool, true, ◌&&◌, Option, none, some, Option-cases,
  List, [], ◌∷◌, ◌++◌, arith, length, length-append, take, take-append, ◌==◌, Bool-cases,
}
use compuguessr.Base.Int.{ℤ, pos}
use compuguessr.Base.Text.{c_str}
use compuguessr.Env.{Env, sock_key, default_env, split_entry, with_value, read_entry, read_entries}
use compuguessr.Util.Environment.{match_key, match_key_iff}
use compuguessr.Util.Memory.{memcmp_avx2, is_zero, memcmp_avx2-zero_iff}

split_entry_whole : (entry : List ℕ) → entry ≡ (split_entry entry).0 ++ (split_entry entry).1
unfolding split_entry
split_entry_whole [] = refl
split_entry_whole (c ∷ cs) = elim (Bool-cases (c == 0)) [
  | inl ends ↦ rw ends refl
  | inr goes ↦ elim (Bool-cases (c == b'=')) [
    | inl equals ↦ rw (goes, equals) refl
    | inr on ↦ rw (goes, on) (ap (λ l. c ∷ l) (split_entry_whole cs))
  ]
]

-- What an entry sets, by `cg_get_env`.
abbrev pub set_to : Env → Option (List ℕ) → Env
set_to env none = env
set_to env (some value) = record { fastcgi_sock = value; fastcgi_sock_len = length (c_str value) }

matching :
    (env : Env) (value : List ℕ)
    → read_entry env (sock_key ++ b'=' ∷ value) ≡ set_to env (some value)
unfolding read_entry split_entry
matching env value =
    let equal : memcmp_avx2 (sock_key ++ b'=' ∷ value) sock_key 12 ≡ pos 0 =
      (memcmp_avx2-zero_iff (sock_key ++ b'=' ∷ value) sock_key 12 (omega arith) (omega arith)).1
        refl in
    rw equal refl

-- What the three tests of an entry say together.
tests :
    (c len : ℕ) (same : Bool)
    → c == b'=' && len == 12 && same ≡ true
    → (c ≡ b'=') × (len ≡ 12) × (same ≡ true)
tests c len same e = ground arith

zero_from : (r : ℤ) → is_zero r ≡ true → r ≡ pos 0
zero_from r e = ground arith

is_setting :
    (entry key value : List ℕ) (c : ℕ)
    → entry ≡ key ++ c ∷ value
    → c ≡ b'='
    → length key ≡ 12
    → memcmp_avx2 entry sock_key 12 ≡ pos 0
    → match_key entry sock_key ≡ some value
unfolding c_str
is_setting entry key value c whole equals sized same =
    let long : 12 ≤ length entry = rw whole (omega (arith, length-append key (c ∷ value))) in
    let start : take 12 entry ≡ key = rw (whole, sym sized) (take-append key (c ∷ value)) in
    let named : key ≡ sock_key =
      sym start ∙ (memcmp_avx2-zero_iff entry sock_key 12 long (omega arith)).0 same in
    (match_key_iff entry sock_key value).1 (whole ∙ rw (named, equals) refl)

with_value-none :
    (env : Env) (entry key rest : List ℕ)
    → entry ≡ key ++ rest
    → match_key entry sock_key ≡ none
    → with_value env entry key rest ≡ env
with_value-none env entry key [] whole e = refl
with_value-none env entry key (c ∷ value) whole e =
    elim (Bool-cases (c == b'=' && length key == 12 && is_zero (memcmp_avx2 entry sock_key 12))) [
      | inr other ↦ rw other refl
      | inl same ↦
          let (equals, sized, zero_result) =
            tests c (length key) (is_zero (memcmp_avx2 entry sock_key 12)) same in
          absurd (
            ground (
              arith,
              sym e ∙ is_setting entry key value c whole equals sized (zero_from _ zero_result),
            ))
    ]

unmatched :
    (env : Env) (entry : List ℕ) → match_key entry sock_key ≡ none → read_entry env entry ≡ env
unfolding read_entry
unmatched env entry e =
    with_value-none env entry (split_entry entry).0 (split_entry entry).1 (split_entry_whole entry)
      e

read_entry_lem :
    (env : Env) (entry : List ℕ) → read_entry env entry ≡ set_to env (match_key entry sock_key)
unfolding c_str
read_entry_lem env entry = elim (Option-cases (match_key entry sock_key)) [
  | inl e ↦ rw e (unmatched env entry e)
  | inr (value, e) ↦
      let whole = (match_key_iff entry sock_key value).0 e in rw e (rw whole (matching env value))
]

-- The last entry that sets the path, if any does.
unfoldable pub last_setting : List (List ℕ) → Option (List ℕ) → Option (List ℕ)
last_setting [] before = before
last_setting (entry ∷ envp) before =
    last_setting envp (elim (match_key entry sock_key) [ none ↦ before | some value ↦ some value ])

read_entries-last :
    (env : Env) (envp : List (List ℕ)) (before : Option (List ℕ))
    → read_entries (set_to env before) envp ≡ set_to env (last_setting envp before)
unfolding read_entries last_setting
read_entries-last env [] before = refl
read_entries-last env (entry ∷ envp) before = elim (Option-cases (match_key entry sock_key)) [
  | inl e ↦ rw (read_entry_lem (set_to env before) entry, e) (read_entries-last env envp before)
  | inr (value, e) ↦
      rw (read_entry_lem (set_to env before) entry, e) (read_entries-last env envp (some value))
]

-- `cg_env_init` takes the path, with its length, from the last entry that is `FASTCGI_SOCK`, an
-- equals sign and a value, as `cg_get_env` tells such entries; without one, it takes the default.
pub read_entries_settings :
    (envp : List (List ℕ))
    → read_entries default_env envp ≡ set_to default_env (last_setting envp none)
read_entries_settings envp = read_entries-last default_env envp none
