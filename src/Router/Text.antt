-- ===== src/Router/Text.antt =====
-- `append_str`, `append_json_escaped` and `append_uint` of src/services/cg_router.c, and
-- `get_session_id`. What has been written from the start of a buffer up to `*p` is a list.
-- `cg_utoa` is the loop of src/arch/x86_64/cg_util.asm.
pub mod Json
pub mod Decimal
use compuguessr.Base.{
  ℕ, zero, suc, ◌+◌, ◌-◌, ◌*◌, ◌/◌, ◌^◌, Bool, true, false, ◌&&◌, List, [], ◌∷◌, ◌++◌, ◌==◌, ltb,
  leb, if◌then◌else◌,
}
use compuguessr.Base.Text.{c_str}
use compuguessr.Base.Words.{u8, u64}
use compuguessr.Request.{Request}

abbrev pub append_str : List ℕ → List ℕ → List ℕ
append_str p s = p ++ c_str s

-- The cases of the `switch`. Bytes below 0x20 that have no case are dropped.
unfoldable pub escape_char : ℕ → List ℕ
escape_char c =
    if c == b'"'
    then b'\\' ∷ b'"' ∷ []
    else if c == b'\\'
    then b'\\' ∷ b'\\' ∷ []
    else if c == 8
    then b'\\' ∷ b'b' ∷ []
    else if c == 12
    then b'\\' ∷ b'f' ∷ []
    else if c == 10
    then b'\\' ∷ b'n' ∷ []
    else if c == 13
    then b'\\' ∷ b'r' ∷ []
    else if c == 9
    then b'\\' ∷ b't' ∷ []
    else if leb 32 c
    then c ∷ []
    else []

-- What the loop writes for a string.
unfoldable pub json_escape : List ℕ → List ℕ
unfolding escape_char
json_escape [] = []
json_escape (c ∷ s) = escape_char c ++ json_escape s

abbrev pub append_json_escaped : List ℕ → List ℕ → List ℕ
append_json_escaped p s = p ++ json_escape (c_str s)

-- `mulx` by 0xCCCCCCCCCCCCCCCD and `shr 3`.
unfoldable pub div10_u64 : ℕ → ℕ
div10_u64 n = n * 0xCCCCCCCCCCCCCCCD / 2 ^ 64 / 2 ^ 3

-- The loop, from the last digit to the first, in the 20 bytes of the buffer.
unfoldable pub utoa_digits : ℕ → ℕ → List ℕ → List ℕ
utoa_digits zero n digits = digits
utoa_digits (suc room) n digits =
    let q = div10_u64 n in
    let longer = u8 (48 + (n - q * 10)) ∷ digits in
    let rest = utoa_digits room q longer in if q == 0 then longer else rest

abbrev pub utoa : ℕ → List ℕ
utoa n = utoa_digits 20 n []

abbrev pub append_uint : List ℕ → ℕ → List ℕ
append_uint p val = p ++ utoa val

abbrev pub is_digit : ℕ → Bool
is_digit c = leb b'0' c && leb c b'9'

-- The loop of `get_session_id`, with the sum so far.
unfoldable pub parse_uint : ℕ → List ℕ → ℕ
parse_uint sid [] = sid
parse_uint sid (c ∷ cs) =
    let rest = parse_uint (u64 (sid * 10 + (c - 48))) cs in if is_digit c then rest else sid

abbrev pub get_session_id : Request → ℕ
get_session_id req = parse_uint 0 (c_str req.session_id)
