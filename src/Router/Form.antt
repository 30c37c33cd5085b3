-- ===== src/Router/Form.antt =====
-- `cg_get_form_value` of src/services/cg_router.c. The string `qs` is the list of its bytes; its
-- end is the NUL. `out` is what is written before the last NUL; `size` is the size of the buffer,
-- which the function does not know: a longer value is written behind it.
pub mod Encoding
pub mod Reading
use compuguessr.Base.{
  ℕ, zero, suc, ◌+◌, ◌-◌, ◌*◌, ◌%◌, Bool, true, false, ◌||◌, bit_or, Option, none, some, List, [],
  ◌∷◌, Run, ok, fail, out_of_bounds, no_fuel, length, ◌==◌, leb, ltb, if◌then◌else◌,
}
use compuguessr.Base.Words.{u8}

-- One hexadecimal digit as the code computes it, in the low byte: `char` is signed, so bytes from
-- 128 on are below '9' too.
unfoldable pub hex_value : ℕ → ℕ
hex_value c =
    if leb c b'9' || leb 128 c then u8 (c + 256 - 48) else u8 (bit_or c 0x20 + 256 - 97 + 10)

-- `(char)((h << 4) | l)`
unfoldable pub hex_byte : ℕ → ℕ → ℕ
unfolding hex_value
hex_byte a b = bit_or (hex_value a % 16 * 16) (hex_value b)

-- The loop that copies the value, up to `&` or the end.
unfoldable pub decode : List ℕ → List ℕ
unfolding hex_byte
decode [] = []
decode (c ∷ []) = if c == b'&' then [] else if c == b'+' then b' ' ∷ [] else c ∷ []
decode (c ∷ a ∷ []) =
    let rest = decode (a ∷ []) in
    if c == b'&' then [] else if c == b'+' then b' ' ∷ rest else c ∷ rest
decode (c ∷ a ∷ b ∷ p) =
    let rest = decode (a ∷ b ∷ p) in
    let behind = decode p in
    if c == b'&'
    then []
    else if c == b'+'
    then b' ' ∷ rest
    else if c == b'%'
    then hex_byte a b ∷ behind
    else c ∷ rest

-- `match && p[key_len] == '='`: what follows the `=`.
unfoldable pub after_key : List ℕ → List ℕ → Option (List ℕ)
after_key [] key = none
after_key (c ∷ p) [] = if c == b'=' then some p else none
after_key (c ∷ p) (k ∷ key) = let rest = after_key p key in if c == k then rest else none

-- `while (*p && *p != '&') p++; if (*p == '&') p++;`
unfoldable pub next_field : List ℕ → List ℕ
next_field [] = []
next_field (c ∷ p) = let rest = next_field p in if c == b'&' then p else rest

-- The value, where the buffer has room for it and its NUL.
unfoldable pub fits_in : ℕ → List ℕ → Run (Option (List ℕ))
fits_in size value = if ltb (length value) size then ok (some value) else fail out_of_bounds

-- The outer loop, with fuel.
unfoldable pub find_value : ℕ → List ℕ → List ℕ → ℕ → Run (Option (List ℕ))
unfolding fits_in decode
find_value zero p key size = fail no_fuel
find_value (suc fuel) [] key size = ok none
find_value (suc fuel) (c ∷ p) key size =
    let rest = find_value fuel (next_field (c ∷ p)) key size in
    elim (after_key (c ∷ p) key) [ some value ↦ fits_in size (decode value) | none ↦ rest ]

-- Each round takes a byte or more off the string.
unfoldable pub get_form_value : List ℕ → List ℕ → ℕ → Run (Option (List ℕ))
unfolding find_value
get_form_value qs key size = find_value (length qs + 1) qs key size
