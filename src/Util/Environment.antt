-- ===== src/Util/Environment.antt =====
-- `cg_get_env` of src/util/cg_util.c. `envp` is the list of its strings, each the bytes from its
-- pointer on.
use compuguessr.Base.{
  ℕ, zero, suc, ◌<◌, ◌≡◌, ◌≢◌, refl, ap, ◌∙◌, ◌⊎◌, inl, inr, ◌↔◌, Option, none, some, List, [], ◌∷◌,
  ◌++◌, arith, get_elem?, ◌==◌, if◌then◌else◌, Option-cases,
}
use compuguessr.Base.Text.{c_str}

-- `*key_str == '\0' && *env_str == '='`: what follows the `=`.
abbrev pub after_equals : List ℕ → Option (List ℕ)
after_equals [] = none
after_equals (e ∷ es) = if e == b'=' then some es else none

-- The inner loop and the test behind it.
unfoldable pub match_key : List ℕ → List ℕ → Option (List ℕ)
match_key env [] = after_equals env
match_key [] (k ∷ ks) = none
match_key (e ∷ es) (k ∷ ks) =
    let rest = match_key es ks in
    if k == 0 then after_equals (e ∷ es) else if e == k then rest else none

unfoldable pub get_env : List (List ℕ) → List ℕ → Option (List ℕ)
unfolding match_key
get_env [] key = none
get_env (env ∷ envp) key =
    let rest = get_env envp key in
    elim (match_key env key) [ some value ↦ some value | none ↦ rest ]

after_equals_iff : (env v : List ℕ) → (after_equals env ≡ some v) ↔ (env ≡ b'=' ∷ v)
after_equals_iff [] v = ground arith
after_equals_iff (e ∷ es) v = ground arith

-- An entry matches a key, with a value, exactly if it is the key, an equals sign and the value.
pub match_key_iff :
    (env key v : List ℕ) → (match_key env key ≡ some v) ↔ (env ≡ c_str key ++ b'=' ∷ v)
unfolding match_key c_str
match_key_iff env [] v = after_equals_iff env v
match_key_iff [] (k ∷ ks) v = ground arith
match_key_iff (e ∷ es) (k ∷ ks) v = ground (arith, match_key_iff es ks v)

-- The first entry for a key, with its value.
pub record FirstBinding (envp : List (List ℕ)) (key v : List ℕ) : Type 0 where
  pub place : ℕ
  pub entry : get_elem? envp place ≡ some (c_str key ++ b'=' ∷ v)
  pub earlier : (j : ℕ) → j < place → (w : List ℕ) → get_elem? envp j ≢ some (c_str key ++ b'=' ∷ w)

no_match : (env key w : List ℕ) → match_key env key ≡ none → some env ≢ some (c_str key ++ b'=' ∷ w)
no_match env key w missed same =
    let found = (match_key_iff env key w).1 (ground (arith, same)) in
    absurd (ground (arith, found, missed))

get_env_here :
    (env : List ℕ) (envp : List (List ℕ)) (key v : List ℕ)
    → match_key env key ≡ some v
    → get_env (env ∷ envp) key ≡ some v
unfolding get_env
get_env_here env envp key v e = rw (e, get_env) refl

get_env_later :
    (env : List ℕ) (envp : List (List ℕ)) (key : List ℕ)
    → match_key env key ≡ none
    → get_env (env ∷ envp) key ≡ get_env envp key
unfolding get_env
get_env_later env envp key e = rw (e, get_env) refl

get_env_empty : (key : List ℕ) → get_env [] key ≡ none
unfolding get_env
get_env_empty key = refl

-- The search of the environment ends with the value of the first entry that is the key, an equals
-- sign and a value, or with none where no entry is of that form.
pub get_env_cases :
    (envp : List (List ℕ)) (key : List ℕ)
    → ((v : List ℕ) × (get_env envp key ≡ some v) × FirstBinding envp key v)
      ⊎ ((get_env envp key ≡ none)
          × ((j : ℕ) (w : List ℕ) → get_elem? envp j ≢ some (c_str key ++ b'=' ∷ w)))
get_env_cases [] key = inr (get_env_empty key, λ j w e. absurd (ground arith))
get_env_cases (env ∷ envp) key = elim (Option-cases (match_key env key)) [
  | inr (v, e) ↦
      let whole = (match_key_iff env key v).0 e in
      inl (
        v,
        get_env_here env envp key v e,
        record { place = 0; entry = ap some whole; earlier = λ j lt. absurd (omega arith) },
      )
  | inl e ↦ elim (get_env_cases envp key) [
    | inl (v, run, first) ↦ inl (
      v,
      get_env_later env envp key e ∙ run,
      record {
        place = suc first.place;
        entry = first.entry;
        earlier = elim [
          | zero ↦ λ lt w. no_match env key w e
          | suc j ↦ λ lt. first.earlier j (omega arith)
        ];
      },
    )
    | inr (run, none_there) ↦ inr (
      get_env_later env envp key e ∙ run,
      elim [ zero ↦ λ w. no_match env key w e | suc j ↦ none_there j ],
    )
  ]
]
