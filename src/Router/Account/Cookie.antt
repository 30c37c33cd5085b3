-- ===== src/Router/Account/Cookie.antt =====
-- A session id as a cookie: what the parser and `get_session_id` make of the digits that a reply sets.
use compuguessr.Base.{
  ltb, Returns, ℕ, zero, suc, ◌+◌, ◌-◌, ◌*◌, ◌/◌, ◌%◌, ◌^◌, ◌≤◌, ◌<◌, ◌≡◌, refl, ap, ◌∙◌, inl, inr,
  true, false, some, List, [], ◌∷◌, ◌++◌, arith, length, length-append, take, drop, length-drop,
  set, leb, ◌==◌, Bool-cases,
}
use compuguessr.Base.Text.{codes, c_str, c_str-append, NoNul, write}
use compuguessr.Base.Words.{u8}
use compuguessr.Request.{Request}
use compuguessr.Fastcgi.Params.{find_session, put_text, store_session, upto_semicolon}
use compuguessr.Router.Text.{utoa, utoa_digits, div10_u64, is_digit, parse_uint, get_session_id}
use compuguessr.Router.Text.Decimal.{div10_u64_lem, utoa_read, length-utoa_digits}
use compuguessr.Util.Memory.{memcmp_avx2, memcmp_blocks, memcmp}

-- Every byte is a decimal digit.
abbrev AreDigits : List ℕ → Type 0
AreDigits [] = Unit {0}
AreDigits (c ∷ cs) = (is_digit c ≡ true) × AreDigits cs

utoa_digits-AreDigits :
    (room n : ℕ) (digits : List ℕ)
    → n < 2 ^ 64
    → AreDigits digits
    → AreDigits (utoa_digits room n digits)
unfolding utoa_digits
utoa_digits-AreDigits zero n digits small d = d
utoa_digits-AreDigits (suc room) n digits small d =
    let q : div10_u64 n ≡ n / 10 = div10_u64_lem n small in
    let digit : u8 (48 + (n - n / 10 * 10)) ≡ 48 + n % 10 = omega arith in
    let shown : is_digit (48 + n % 10) ≡ true = ground arith in
    let longer =
      utoa_digits-AreDigits room (n / 10) ((48 + n % 10) ∷ digits) (omega arith) (shown, d) in
    rw (q, digit)
      (elim (Bool-cases (n / 10 == 0)) [
        | inl last ↦ rw (last, AreDigits) (shown, d)
        | inr more ↦ rw (more, AreDigits) longer
      ])

AreDigits-NoNul : (cs : List ℕ) → AreDigits cs → NoNul cs
AreDigits-NoNul [] d = tt
AreDigits-NoNul (c ∷ cs) (p, d) = (ground arith, AreDigits-NoNul cs d)

-- The cookie ends, or goes on with another one.
pub data Ended : List ℕ → Type 0 where
  here : Ended []
  more : (rest : List ℕ) → Ended (b';' ∷ rest)

upto_semicolon-AreDigits :
    (cs rest : List ℕ) → AreDigits cs → Ended rest → upto_semicolon (cs ++ rest) ≡ cs
unfolding upto_semicolon
upto_semicolon-AreDigits [] [] d here = refl
upto_semicolon-AreDigits [] _ d (more rest) = refl
upto_semicolon-AreDigits (c ∷ cs) rest (p, d) e =
    let other : c == b';' ≡ false = ground arith in
    rw other (ap (λ l. c ∷ l) (upto_semicolon-AreDigits cs rest d e))

-- What the browser sends back.
abbrev pub cookie : ℕ → List ℕ → List ℕ
cookie sid rest = codes "SESSION=" ++ (utoa sid ++ rest)

find_session-cookie :
    (sid : ℕ) (rest : List ℕ)
    → sid < 2 ^ 64
    → Ended rest
    → find_session (cookie sid rest) ≡ some (utoa sid)
unfolding find_session memcmp_avx2 memcmp_blocks memcmp
find_session-cookie sid rest small e =
    let text = utoa sid ++ rest in
    let long : leb 8 (length (codes "SESSION=" ++ text)) ≡ true =
      ground (arith, length-append (codes "SESSION=") text) in
    rw long (
      ap some
        (upto_semicolon-AreDigits (utoa sid) rest (utoa_digits-AreDigits 20 sid [] small tt) e))

set-append :
    (xs ys : List ℕ) (v : ℕ) → 0 < length ys → set (xs ++ ys) (length xs) v ≡ xs ++ v ∷ drop 1 ys
set-append [] [] v h = absurd (omega arith)
set-append [] (y ∷ ys) v h = refl
set-append (x ∷ xs) ys v h = ap (λ l. x ∷ l) (set-append xs ys v h)

-- A text without a NUL that is stored with one is the string of the buffer.
c_str-stored :
    (buf text : List ℕ)
    → NoNul text
    → length text < length buf
    → c_str (set (write buf 0 text) (length text) 0) ≡ text
unfolding write
c_str-stored buf text n room =
    let rest = drop (0 + length text) buf in
    let left : 0 < length rest = omega (arith, length-drop (0 + length text) buf) in
    rw (set-append text rest 0 left) (c_str-append text (drop 1 rest) n)

take_short : (n : ℕ) (xs : List ℕ) → length xs ≤ n → take n xs ≡ xs
take_short zero [] h = refl
take_short zero (x ∷ xs) h = absurd (omega arith)
take_short (suc n) [] h = refl
take_short (suc n) (x ∷ xs) h = ap (λ l. x ∷ l) (take_short n xs (omega arith))

store_session_of :
    (req : Request) (sent text : List ℕ)
    → find_session sent ≡ some text
    → length text ≤ 31
    → length req.session_id ≡ 32
    → NoNul text
    → Returns (store_session req sent) (λ req'. c_str req'.session_id ≡ text)
unfolding store_session put_text
store_session_of req sent text found short size n =
    let room : ltb (length text) (length req.session_id) ≡ true = ground arith in
    rw (found, store_session, take_short 31 text short, room)
      (_, refl, c_str-stored req.session_id text n (omega arith))

-- The id that a reply has set comes back, whatever the buffer held before.
pub get_session_id-cookie :
    (req : Request) (sid : ℕ) (rest : List ℕ)
    → length req.session_id ≡ 32
    → sid < 2 ^ 64
    → Ended rest
    → Returns (store_session req (cookie sid rest)) (λ req'. get_session_id req' ≡ sid)
get_session_id-cookie req sid rest size small e =
    let short : length (utoa sid) ≤ 31 = omega (arith, length-utoa_digits 20 sid []) in
    let digits = AreDigits-NoNul (utoa sid) (utoa_digits-AreDigits 20 sid [] small tt) in
    let found = find_session-cookie sid rest small e in
    let (req', e', stored) =
      store_session_of req (cookie sid rest) (utoa sid) found short size digits in
    (req', e', ap (parse_uint 0) stored ∙ utoa_read sid small)
