-- ===== src/Fastcgi/Params/Stuck.antt =====
-- A payload on which the parser of parameters never ends.
use compuguessr.Base.{
  ℕ, zero, suc, ◌+◌, ◌^◌, ◌≤◌, ◌<◌, ◌≡◌, refl, true, false, some, List, ok, fail, no_fuel, arith,
  length, get_or, get_elem?-eq-get_or, ltb, leb,
}
use compuguessr.Base.Words.{u32}
use compuguessr.Request.{Request}
use compuguessr.Fastcgi.Params.{
  Pair, pair_at, next_pair, after_pair, byte, fastcgi_len, is_name, store_value, store_param,
  params,
}

module _ (payload : List ℕ) (content_len p_off : ℕ) (limit : content_len < 2 ^ 16)
    (fits : content_len ≤ length payload) (more : p_off < content_len)
    (short : content_len < p_off + 4) (long : 128 ≤ get_or payload p_off 0) where
  no_length : fastcgi_len payload p_off content_len ≡ ok (0, p_off)
  unfolding fastcgi_len
  no_length =
      let within : leb content_len p_off ≡ false = ground arith in
      let big : ltb (get_or payload p_off 0) 128 ≡ false = ground arith in
      let cut : ltb content_len (u32 (p_off + 4)) ≡ true = ground arith in
      rw (within, get_elem?-eq-get_or payload p_off 0 (omega arith), byte, big, cut) refl

  abbrev stuck_pair : Pair
  stuck_pair = record { name_off = p_off; n_len = 0; v_len = 0; val_off = p_off; end_off = p_off }

  same_pair : next_pair payload content_len p_off ≡ ok (some stuck_pair)
  unfolding next_pair pair_at
  same_pair = rw (no_length, no_length) (ground arith)

  no_name : (req : Request) → store_param req payload p_off 0 p_off 0 ≡ ok req
  unfolding store_param is_name store_value
  no_name req = refl

  -- Where a pair would begin with a byte of 128 or more among the last three bytes of the
  -- payload, the offset stays where it is: the loop uses up any number of rounds.
  pub params_never_ends :
      (fuel : ℕ) (req : Request) → params fuel req payload content_len p_off ≡ fail no_fuel
  unfolding params after_pair
  params_never_ends zero req = refl
  params_never_ends (suc fuel) req =
      let going : ltb p_off content_len ≡ true = ground arith in
      rw (going, same_pair, no_name req) (params_never_ends fuel req)
