-- ===== src/Fastcgi/Params/Safe.antt =====
-- The parser of parameters reads nothing outside the payload and writes nothing outside the
-- buffers of the request.
use compuguessr.Base.{
  ℕ, zero, suc, ◌+◌, ◌^◌, ◌≤◌, ◌<◌, ◌≡◌, refl, ◌∙◌, ◌⊎◌, inl, inr, Bool, true, false, Option, none,
  some, List, [], ◌∷◌, Run, fail, no_fuel, ◌>>=◌, Returns, arith, length, take, drop, length-set,
  length-take, ◌==◌, ltb, if◌then◌else◌, Bool-cases, Option-cases,
}
use compuguessr.Base.Text.{codes, write, length-write}
use native.Mathlib.Decide.{dec_le}
use compuguessr.Base.Words.{u32}
use compuguessr.Request.{Request, IsValid}
use compuguessr.Fastcgi.Params.{
  Pair, pair_at, next_pair, after_pair, is_name, cut_query, put_text, copy_value, find_session,
  store_session, store_value, store_param, params,
}
use compuguessr.Fastcgi.Params.Lengths.{
  IsBytes, Safe, fastcgi_len-IsLen, slice_lem, is_name-Returns,
}

is_name-long :
    (payload : List ℕ) (off n_len : ℕ) (text : List ℕ)
    → (n_len ≡ length text → ⊥)
    → Returns (is_name payload off n_len text) (λ b. b ≡ true → n_len ≡ length text)
unfolding is_name
is_name-long payload off n_len text ne =
    let other : n_len == length text ≡ false = ground arith in
    rw other (false, refl, λ e. absurd (cc))

length-cut_query : (n : ℕ) (cs : List ℕ) → length (cut_query n cs) ≡ length cs
unfolding cut_query
length-cut_query zero cs = refl
length-cut_query (suc n) [] = refl
length-cut_query (suc n) (c ∷ cs) = ground (arith, length-cut_query n cs)

put_text-Returns :
    (buf text : List ℕ)
    → length text < length buf
    → Returns (put_text buf text) (λ out. length out ≡ length buf)
unfolding put_text
put_text-Returns buf text fits =
    let room : ltb (length text) (length buf) ≡ true = ground arith in
    let kept = length-write buf 0 text (omega arith) in
    rw room (_, refl, length-set (write buf 0 text) (length text) 0 ∙ kept)

store_session-IsValid :
    (req : Request) (cookie : List ℕ) → IsValid req → Returns (store_session req cookie) IsValid
unfolding store_session
store_session-IsValid req cookie v = elim (Option-cases (find_session cookie)) [
  | inl e ↦ rw (e, store_session) (req, refl, v)
  | inr (value, e) ↦
      let (stored, put, sized) =
        put_text-Returns req.session_id (take 31 value)
          (omega (arith, length-take 31 value, v.session_size)) in
      rw (e, store_session, put) (_, refl, ground (arith, sized))
]

module _ (payload : List ℕ) (content_len : ℕ) (bytes : IsBytes payload)
    (fits : content_len ≤ length payload) (limit : content_len < 2 ^ 16) where
  copy_value-Returns :
      (buf : List ℕ) (off v_len max : ℕ)
      → off + v_len ≤ content_len
      → max < length buf
      → Returns (copy_value buf payload off v_len max) (λ out. length out ≡ length buf)
  unfolding copy_value
  copy_value-Returns buf off v_len max h room =
      let clen = if ltb v_len max then v_len else max in
      let small : (clen ≤ v_len) × (clen ≤ max) = ground arith in
      rw (slice_lem payload content_len bytes fits limit off clen (omega (arith, small))) (
        put_text-Returns buf (take clen (drop off payload))
          (omega (arith, small, length-take clen (drop off payload))))

  module _ (req : Request) (v : IsValid req) (off n_len v_len : ℕ)
      (h : u32 (u32 (off + n_len) + v_len) ≤ content_len) (inside : off ≤ content_len)
      (n_small : n_len < 2 ^ 31) (v_small : v_len < 2 ^ 31) where
    -- A short name cannot make the sum wrap, so its pair lies in the payload.
    in_range :
        n_len < 2 ^ 16 → (off + n_len + v_len ≤ content_len) × (u32 (off + n_len) ≡ off + n_len)
    in_range short = (omega arith, omega arith)

    names :
        (text : List ℕ)
        → length text < 2 ^ 16
        → Returns (is_name payload off n_len text) (λ b. b ≡ true → n_len ≡ length text)
    names text short = elim (dec_le n_len (length text)) [
      | yes p ↦
          is_name-Returns payload content_len bytes fits limit off n_len text
            (omega (arith, in_range (omega arith)))
      | no p ↦ is_name-long payload off n_len text (λ e. p (omega arith))
    ]

    store_value-IsValid :
        (is_uri is_method is_cookie : Bool)
        → n_len < 2 ^ 16 ⊎ ((is_uri ≡ false) × (is_method ≡ false) × (is_cookie ≡ false))
        → Returns
            (store_value req payload (u32 (off + n_len)) v_len is_uri is_method is_cookie)
            IsValid
    unfolding store_value
    store_value-IsValid true is_method is_cookie (inl short) =
        let range = in_range short in
        let (uri, e, sized) =
          copy_value-Returns req.uri (u32 (off + n_len)) v_len 127 (omega arith)
            (omega (arith, v.uri_size)) in
        rw e (
          _,
          refl,
          ground (arith, sized, length-cut_query (if ltb v_len 127 then v_len else 127) uri),
        )
    store_value-IsValid false true is_cookie (inl short) =
        let range = in_range short in
        let (method, e, sized) =
          copy_value-Returns req.method (u32 (off + n_len)) v_len 15 (omega arith)
            (omega (arith, v.method_size)) in
        rw e (_, refl, ground (arith, sized))
    store_value-IsValid false false true (inl short) =
        let range = in_range short in
        rw (slice_lem payload content_len bytes fits limit (u32 (off + n_len)) v_len (omega arith))
          (store_session-IsValid req _ v)
    store_value-IsValid false false false why = (req, refl, v)
    store_value-IsValid true is_method is_cookie (inr none_of) = absurd (ground arith)
    store_value-IsValid false true is_cookie (inr none_of) = absurd (ground arith)
    store_value-IsValid false false true (inr none_of) = absurd (ground arith)

    store_param-IsValid :
        Returns (store_param req payload off n_len (u32 (off + n_len)) v_len) IsValid
    unfolding store_param
    store_param-IsValid =
        let (uri, e₁, h₁) = names (codes "REQUEST_URI") (omega arith) in
        let (method, e₂, h₂) = names (codes "REQUEST_METHOD") (omega arith) in
        let (cookie, e₃, h₃) = names (codes "HTTP_COOKIE") (omega arith) in
        rw (e₁, e₂, e₃)
          (store_value-IsValid uri method cookie (short_of uri method cookie h₁ h₂ h₃))
      where
        short_of :
            (a b c : Bool)
            → (a ≡ true → n_len ≡ 11)
            → (b ≡ true → n_len ≡ 14)
            → (c ≡ true → n_len ≡ 11)
            → n_len < 2 ^ 16 ⊎ ((a ≡ false) × (b ≡ false) × (c ≡ false))
        short_of true b c h₁ h₂ h₃ = let e = h₁ refl in inl (omega arith)
        short_of false true c h₁ h₂ h₃ = let e = h₂ refl in inl (omega arith)
        short_of false false true h₁ h₂ h₃ = let e = h₃ refl in inl (omega arith)
        short_of false false false h₁ h₂ h₃ = inr (refl, refl, refl)

  -- A pair that passed the check.
  record IsPair (p : Pair) : Type 0 where
    checked : u32 (u32 (p.name_off + p.n_len) + p.v_len) ≤ content_len
    name_inside : p.name_off ≤ content_len
    n_small : p.n_len < 2 ^ 31
    v_small : p.v_len < 2 ^ 31
    val_at : p.val_off ≡ u32 (p.name_off + p.n_len)

  next_pair-Returns :
      (p_off : ℕ)
      → p_off ≤ content_len
      → Returns (next_pair payload content_len p_off) (λ o. (p : Pair) → o ≡ some p → IsPair p)
  unfolding next_pair pair_at
  next_pair-Returns p_off h =
      let read = fastcgi_len-IsLen payload content_len bytes fits limit in
      let (name, e₁, l₁) = read p_off h in
      let (val, e₂, l₂) = read name.1 l₁.inside in
      (
        pair_at content_len val.1 name.0 val.0,
        rw (e₁, ◌>>=◌, e₂),
        checked_pair val.1 name.0 val.0 l₂.inside l₁.small l₂.small,
      )
    where
      checked_pair :
          (off n_len v_len : ℕ)
          → off ≤ content_len
          → n_len < 2 ^ 31
          → v_len < 2 ^ 31
          → (p : Pair) → pair_at content_len off n_len v_len ≡ some p
          → IsPair p
      checked_pair off n_len v_len inside n_small v_small p e = ground arith

  after_pair-Safe :
      (req : Request) (loop : Request → ℕ → Run Request) (o : Option Pair)
      → IsValid req
      → ((p : Pair) → o ≡ some p → IsPair p)
      → ((req' : Request) (off : ℕ)
          → IsValid req'
          → Safe payload content_len bytes fits limit (loop req' off))
      → Safe payload content_len bytes fits limit (after_pair req payload loop o)
  unfolding after_pair
  after_pair-Safe req loop none v checks rest = inr (req, refl, v)
  after_pair-Safe req loop (some p) v checks rest =
      let c = checks p refl in
      let (req', e, v') =
        store_param-IsValid req v p.name_off p.n_len p.v_len c.checked c.name_inside c.n_small
          c.v_small in
      rw (c.val_at, e) (rest req' p.end_off v')

  params-Safe :
      (fuel : ℕ) (req : Request) (p_off : ℕ)
      → IsValid req
      → Safe payload content_len bytes fits limit (params fuel req payload content_len p_off)
  unfolding params
  params-Safe zero req p_off v = inl refl
  params-Safe (suc fuel) req p_off v = elim (Bool-cases (ltb p_off content_len)) [
    | inr done ↦ rw done (inr (req, refl, v))
    | inl more ↦
        let (o, e, checks) = next_pair-Returns p_off (ground arith) in
        rw (more, e)
          (after_pair-Safe req _ o v checks (λ req' off v'. params-Safe fuel req' off v'))
  ]

-- On every payload of bytes, well formed or not, of at least `content_len` bytes with `content_len`
-- below 2^16, from a valid request and for any number of rounds: every read lies inside the
-- payload, of which no more than the `content_len` bytes need be there, every copy lies with its
-- NUL inside its buffer of the request, and the request that the loop ends with is valid; or the
-- loop has not ended within the rounds.
pub params_stays_inside :
    (fuel : ℕ) (req : Request) (payload : List ℕ) (content_len p_off : ℕ)
    → IsBytes payload
    → content_len ≤ length payload
    → content_len < 2 ^ 16
    → IsValid req
    → (params fuel req payload content_len p_off ≡ fail no_fuel)
      ⊎ Returns (params fuel req payload content_len p_off) IsValid
params_stays_inside fuel req payload content_len p_off bytes fits limit v =
    params-Safe payload content_len bytes fits limit fuel req p_off v
