-- ===== src/Router/Account/Remembered.antt =====
-- A session from the reply that opens it to the request that comes back with its cookie.
use compuguessr.Base.{
  ℕ, suc, ◌+◌, ◌^◌, ◌<◌, ◌≡◌, refl, ap, ◌∙◌, ◌≢◌, inl, inr, true, false, some, Option-cases, List,
  ◌∷◌, ◌++◌, ok, Returns, arith, length, take_all, ltb, leb, ◌==◌,
}
use compuguessr.Base.Text.{codes}
use compuguessr.Base.Words.{u32}
use compuguessr.Request.{Request}
use compuguessr.Fastcgi.Params.{
  slice, fastcgi_len, is_name, store_param, store_value, store_session, pair_at, next_pair,
  after_pair, params, handle_params,
}
use compuguessr.SessionDb.{claimed, entry_get, session_id_get}
use compuguessr.SessionDb.Create.{entry_create-Opens}
use compuguessr.SessionDb.Invariant.{session, entry_at, entry_get-view}
use compuguessr.Hashmap.Lookup.{view}
use compuguessr.Router.Account.{Moment, open_session}
use compuguessr.Router.Account.Cookie.{Ended, cookie, get_session_id-cookie}
use compuguessr.Router.Profile.{World}
use compuguessr.Router.Safe.{IsWorld, IsReady}
use compuguessr.Router.Text.{get_session_id}
use compuguessr.Util.Memory.{memcmp_avx2, memcmp_blocks, memcmp}

abbrev cookie_name : List ℕ
cookie_name = codes "HTTP_COOKIE"

-- The parameter as a web server sends it, with a value of less than 128 bytes.
abbrev pub cookie_param : List ℕ → List ℕ
cookie_param value = 11 ∷ length value ∷ cookie_name ++ value

module _ (req : Request) (value : List ℕ) (short : length value < 128) where
  abbrev payload : List ℕ
  payload = cookie_param value

  abbrev size : ℕ
  size = length payload

  lengths_lem :
      next_pair payload size 0
      ≡ ok (
          some (record {
            name_off = 2;
            n_len = 11;
            v_len = length value;
            val_off = 13;
            end_off = 13 + length value;
          }))
  unfolding next_pair fastcgi_len pair_at
  lengths_lem =
      let first : leb size 0 ≡ false = ground arith in
      let second : leb size 1 ≡ false = ground arith in
      let one : ltb (length value) 128 ≡ true = ground arith in
      let end : u32 (13 + length value) ≡ 13 + length value = omega arith in
      let inside : ltb size (13 + length value) ≡ false = ground arith in
      rw (first, second, one, end, inside) refl

  stored_lem : store_param req payload 2 11 13 (length value) ≡ store_session req value
  unfolding store_param is_name slice store_value memcmp_avx2 memcmp_blocks memcmp
  stored_lem =
      let name : ltb size 13 ≡ false = ground arith in
      let whole : ltb size (13 + length value) ≡ false = ground arith in
      rw (name, whole, take_all value) refl

  -- A parameter of this name alone: the value is searched for the session.
  pub handle_params-cookie :
      (req' : Request)
      → store_session req value ≡ ok req'
      → handle_params req payload size ≡ ok req'
  unfolding handle_params params after_pair
  handle_params-cookie req' e =
      let some_left : ltb 0 size ≡ true = ground arith in
      let fuel : size + 1 ≡ suc (suc (12 + length value)) = omega arith in
      let done : ltb (13 + length value) size ≡ false = ground arith in
      rw (fuel, some_left, lengths_lem, stored_lem, e, done) refl

-- A new session: its id is what was drawn, and the database leads from the id to its entry.
open_session-Returns :
    (w : World) (uid : ℕ) (t : Moment)
    → IsWorld w
    → IsReady w t
    → session_id_get t.draw ≢ 0
    → Returns (open_session w uid t) (λ opened.
      (opened.1 ≡ session_id_get t.draw)
      × (i : ℕ) × (entry_get opened.0.sessions (session_id_get t.draw) ≡ ok (some i))
      × (entry_at opened.0.sessions i ≡ claimed (session_id_get t.draw) uid t.now))
unfolding open_session session
open_session-Returns w uid t g ready drawn =
    let sid = session_id_get t.draw in
    let (r, e, opens) =
      entry_create-Opens w.sessions uid t.draw t.now g.sessions drawn ready.new ready.roomy in
    let same : sid == sid ≡ true = ground arith in
    let found = rw same at (opens.reads sid) in
    rw (e, opens.out)
      (elim (Option-cases (view r.db.map sid)) [
        | inl nothing ↦ absurd (ground (arith, rw nothing at found))
        | inr (i, at_i) ↦ (
          _,
          refl,
          (
            refl,
            i,
            entry_get-view r.db sid opens.valid ∙ ap ok at_i,
            ground (arith, rw at_i at found),
          ),
        )
      ])

-- On well-formed databases, with an id that was drawn, is new and finds room: the session is opened
-- under that id; and a request that then comes with a parameter HTTP_COOKIE that starts with the
-- cookie of that id, of less than 128 bytes in all, leads to the entry of the account.
pub session_comes_back :
    (w : World) (uid : ℕ) (t : Moment) (req : Request) (rest : List ℕ)
    → IsWorld w
    → IsReady w t
    → session_id_get t.draw ≢ 0
    → session_id_get t.draw < 2 ^ 64
    → length req.session_id ≡ 32
    → Ended rest
    → length (cookie (session_id_get t.draw) rest) < 128
    → let sid = session_id_get t.draw in
      let sent = cookie_param (cookie sid rest) in
      (w' : World) × (open_session w uid t ≡ ok (w', sid))
      × (req' : Request) × (handle_params req sent (length sent) ≡ ok req')
      × (i : ℕ) × (entry_get w'.sessions (get_session_id req') ≡ ok (some i))
      × (entry_at w'.sessions i ≡ claimed sid uid t.now)
session_comes_back w uid t req rest g ready drawn small sized e short =
    let sid = session_id_get t.draw in
    let value = cookie sid rest in
    let (req', stored, back) = get_session_id-cookie req sid rest sized small e in
    let ((w', named), opened, (same, i, found, entry)) =
      open_session-Returns w uid t g ready drawn in
    (
      w',
      opened ∙ ap (λ s. ok (w', s)) same,
      req',
      handle_params-cookie req value short req' stored,
      i,
      ap (entry_get w'.sessions) back ∙ found,
      entry,
    )
