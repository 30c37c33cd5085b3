-- ===== src/Router/Text/Json.antt =====
-- A JSON string that is written by `append_json_escaped` between quotes is read back whole.
use compuguessr.Base.{
  ℕ, ◌≤◌, ◌≡◌, refl, false, ◌||◌, Option, none, some, List, [], ◌∷◌, ◌++◌, arith, length,
  length-append, ◌==◌, leb, ltb, if◌then◌else◌, ◌*◌,
}
use compuguessr.Router.Text.{escape_char, json_escape}

-- What the letter behind a backslash stands for, among the escapes of JSON with two characters.
unfoldable pub unescape : ℕ → Option ℕ
unescape c =
    if (c == b'"') || (c == b'\\') || (c == b'/')
    then some c
    else if c == b'b'
    then some 8
    else if c == b'f'
    then some 12
    else if c == b'n'
    then some 10
    else if c == b'r'
    then some 13
    else if c == b't'
    then some 9
    else none

abbrev push : ℕ → Option (List ℕ × List ℕ) → Option (List ℕ × List ℕ)
push c none = none
push c (some (s, rest)) = some (c ∷ s, rest)

-- A reader of JSON strings behind the opening quote: the text, and what follows the closing quote.
-- Control characters have no place in a string.
unfoldable pub read_string : List ℕ → Option (List ℕ × List ℕ)
unfolding unescape
read_string [] = none
read_string (c ∷ []) = if c == b'"' then some ([], []) else none
read_string (c ∷ d ∷ cs) =
    let after_two = read_string cs in
    let after_one = read_string (d ∷ cs) in
    if c == b'"'
    then some ([], d ∷ cs)
    else if c == b'\\'
    then elim (unescape d) [ none ↦ none | some e ↦ push e after_two ]
    else if ltb c 32
    then none
    else push c after_one

-- The text without the control characters that JSON has no short escape for.
unfoldable pub printable : List ℕ → List ℕ
printable [] = []
printable (c ∷ s) =
    let rest = printable s in
    if leb 32 c || (c == 8) || (c == 12) || (c == 10) || (c == 13) || (c == 9)
    then c ∷ rest
    else rest

read_plain :
    (c : ℕ) (cs : List ℕ)
    → 32 ≤ c
    → c == b'"' ≡ false
    → c == b'\\' ≡ false
    → read_string (c ∷ cs) ≡ push c (read_string cs)
unfolding read_string
read_plain c [] h q e = rw q refl
read_plain c (d ∷ cs) h q e = let ok : ltb c 32 ≡ false = ground arith in rw (q, e, ok) refl

-- Between quotes, the escaped form of any text reads back as the text without those control
-- characters, and the reader stops at the closing quote, whatever the text holds.
pub json_escape_read :
    (s rest : List ℕ) → read_string (json_escape s ++ b'"' ∷ rest) ≡ some (printable s, rest)
unfolding json_escape escape_char printable read_string unescape
json_escape_read [] [] = refl
json_escape_read [] (d ∷ rest) = refl
json_escape_read (c ∷ s) rest =
    ground (arith, json_escape_read s rest, read_plain c (json_escape s ++ b'"' ∷ rest))

pub escape_char-le : (c : ℕ) → length (escape_char c) ≤ 2
unfolding escape_char
escape_char-le c = ground arith

-- The escaped form is at most twice as long.
pub length-json_escape : (s : List ℕ) → length (json_escape s) ≤ 2 * length s
unfolding json_escape
length-json_escape [] = omega arith
length-json_escape (c ∷ s) =
    omega
      (arith, length-append (escape_char c) (json_escape s), escape_char-le c, length-json_escape s)
