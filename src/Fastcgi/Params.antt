-- ===== src/Fastcgi/Params.antt =====
-- `cg_fastcgi_len` and `cg_fastcgi_handle_params`. `payload` is the receive buffer from the
-- payload on; a read behind its end is out of bounds.
pub mod Lengths
pub mod Safe
pub mod Stuck
use compuguessr.Base.{
  ℕ, zero, suc, ◌+◌, ◌*◌, ◌/◌, ◌%◌, ◌^◌, bit_and, bit_or, Bool, true, false, ◌&&◌, Option, none,
  some, List, [], ◌∷◌, Run, ok, fail, out_of_bounds, no_fuel, enough, ◌>>=◌, length, take, drop,
  get_elem?, set, ◌==◌, ltb, leb, if◌then◌else◌,
}
use compuguessr.Base.Int.{ℤ, pos, negsuc}
use compuguessr.Base.Text.{codes, write}
use compuguessr.Base.Words.{u32, ◌<<<◌}
use compuguessr.Request.{Request}
use compuguessr.Util.Memory.{memcmp_avx2, is_zero}

abbrev pub byte : List ℕ → ℕ → Run ℕ
byte buf i = elim (get_elem? buf i) [ none ↦ fail out_of_bounds | some b ↦ ok b ]

-- The bytes from `off` to `off + n`.
unfoldable pub slice : List ℕ → ℕ → ℕ → Run (List ℕ)
slice buf off n =
    if ltb (length buf) (off + n) then fail out_of_bounds else ok (take n (drop off buf))

-- The four bytes of a long length.
abbrev pub long_len : ℕ → ℕ → ℕ → ℕ → ℕ
long_len a b c d = bit_or (bit_or (bit_or (bit_and a 0x7f <<< 24) (b <<< 16)) (c <<< 8)) d

-- The length, and the offset behind it.
unfoldable pub fastcgi_len : List ℕ → ℕ → ℕ → Run (ℕ × ℕ)
fastcgi_len buf offset limit = if leb limit offset then ok (0, offset) else do
  len ← byte buf offset
  if ltb len 128
      then ok (len, u32 (offset + 1))
      else if ltb limit (u32 (offset + 4))
      then ok (0, offset)
      else (do
        b ← byte buf (offset + 1)
        c ← byte buf (offset + 2)
        d ← byte buf (offset + 3)
        ok (long_len len b c d, u32 (offset + 4)))

-- `n_len == k && cg_memcmp_avx2(name, text, k) == 0`
unfoldable pub is_name : List ℕ → ℕ → ℕ → List ℕ → Run Bool
is_name payload off n_len text =
    if n_len == length text
    then (do
      name ← slice payload off (length text)
      ok (is_zero (memcmp_avx2 name text (length text))))
    else ok false

-- The first `?` among the first `n` bytes becomes a NUL.
unfoldable pub cut_query : ℕ → List ℕ → List ℕ
cut_query (suc n) (c ∷ cs) = if c == b'?' then 0 ∷ cs else c ∷ cut_query n cs
cut_query _ cs = cs

-- The text and a NUL behind it; either behind the end of the buffer is out of bounds.
unfoldable pub put_text : List ℕ → List ℕ → Run (List ℕ)
put_text buf text =
    if ltb (length text) (length buf)
    then ok (set (write buf 0 text) (length text) 0)
    else fail out_of_bounds

-- Copies at most `max` bytes of the value and a NUL.
unfoldable pub copy_value : List ℕ → List ℕ → ℕ → ℕ → ℕ → Run (List ℕ)
copy_value buf payload val_off v_len max = do
  let clen = if ltb v_len max then v_len else max
  val ← slice payload val_off clen
  put_text buf val

unfoldable pub upto_semicolon : List ℕ → List ℕ
upto_semicolon [] = []
upto_semicolon (c ∷ cs) = if c == b';' then [] else c ∷ upto_semicolon cs

-- The value behind the first `SESSION=` of the cookie.
unfoldable pub find_session : List ℕ → Option (List ℕ)
unfolding upto_semicolon
find_session [] = none
find_session (c ∷ cs) =
    let rest = find_session cs in
    if leb 8 (length (c ∷ cs)) && is_zero (memcmp_avx2 (c ∷ cs) (codes "SESSION=") 8)
    then some (upto_semicolon (drop 8 (c ∷ cs)))
    else rest

unfoldable pub store_session : Request → List ℕ → Run Request
store_session req cookie = elim (find_session cookie) [
  | none ↦ ok req
  | some value ↦
      put_text req.session_id (take 31 value) >>= λ stored. ok (record req { session_id = stored })
]

-- The three branches, by what the name is.
unfoldable pub store_value : Request → List ℕ → ℕ → ℕ → Bool → Bool → Bool → Run Request
store_value req payload val_off v_len true is_method is_cookie = do
  uri ← copy_value req.uri payload val_off v_len 127
  ok (record req { uri = cut_query (if ltb v_len 127 then v_len else 127) uri })
store_value req payload val_off v_len false true is_cookie = do
  method ← copy_value req.method payload val_off v_len 15
  ok (record req { method = method })
store_value req payload val_off v_len false false true = do
  cookie ← slice payload val_off v_len
  store_session req cookie
store_value req payload val_off v_len false false false = ok req

-- The comparisons write nothing, so all three are made first.
unfoldable pub store_param : Request → List ℕ → ℕ → ℕ → ℕ → ℕ → Run Request
store_param req payload name_off n_len val_off v_len = do
  is_uri ← is_name payload name_off n_len (codes "REQUEST_URI")
  is_method ← is_name payload name_off n_len (codes "REQUEST_METHOD")
  is_cookie ← is_name payload name_off n_len (codes "HTTP_COOKIE")
  store_value req payload val_off v_len is_uri is_method is_cookie

-- Where one pair lies, and where the next begins.
pub record Pair : Type 0 where
  pub name_off : ℕ
  pub n_len : ℕ
  pub v_len : ℕ
  pub val_off : ℕ
  pub end_off : ℕ

-- The check of the pair against the payload; `none` is the `break`.
unfoldable pub pair_at : ℕ → ℕ → ℕ → ℕ → Option Pair
pair_at content_len p_off n_len v_len =
    if ltb content_len (u32 (u32 (p_off + n_len) + v_len))
    then none
    else some (record {
      name_off = p_off;
      n_len = n_len;
      v_len = v_len;
      val_off = u32 (p_off + n_len);
      end_off = u32 (u32 (p_off + n_len) + v_len);
    })

unfoldable pub next_pair : List ℕ → ℕ → ℕ → Run (Option Pair)
next_pair payload content_len p_off = do
  name ← fastcgi_len payload p_off content_len
  val ← fastcgi_len payload name.1 content_len
  ok (pair_at content_len val.1 name.0 val.0)

-- The rest of a round: `loop` goes on with the next pair.
unfoldable pub after_pair :
    Request → List ℕ → (Request → ℕ → Run Request) → Option Pair → Run Request
after_pair req payload loop none = ok req
after_pair req payload loop (some p) =
    store_param req payload p.name_off p.n_len p.val_off p.v_len >>= λ req'. loop req' p.end_off

-- The loop, with fuel.
unfoldable pub params : ℕ → Request → List ℕ → ℕ → ℕ → Run Request
params zero req payload content_len p_off = fail no_fuel
params (suc fuel) req payload content_len p_off =
    let loop : Request → ℕ → Run Request = λ req' off. params fuel req' payload content_len off in
    let round = next_pair payload content_len p_off >>= after_pair req payload loop in
    if ltb p_off content_len then round else ok req

-- The offset alone decides how the loop goes on, and the loop is in a round only at an offset
-- below `content_len`: after `content_len` rounds an offset has come twice, or the loop has ended.
unfoldable pub handle_params : Request → List ℕ → ℕ → Run Request
handle_params req payload content_len = enough (params (content_len + 1) req payload content_len 0)
