-- ===== src/Router/Safe/Replying.antt =====
-- `cg_route_map_reply` on well-formed databases, with the map of routes that the program starts
-- with.
use compuguessr.Base.{
  ℕ, ◌<◌, ◌≡◌, refl, ap, ◌∙◌, inl, inr, Bool, true, false, Option, none, some, List, [], ◌∷◌, arith,
  length, length-take, get_elem?, get_elem?-eq-get_or, get_or, ◌==◌, if◌then◌else◌, Bool-cases,
}
use compuguessr.Base.Text.{c_str}
use compuguessr.Challenges.{Challenge}
use compuguessr.Challenges.Search.{IsSorted}
use compuguessr.Fastcgi.Parse.{Buffer}
use compuguessr.Fastcgi.Write.Sent.{IsTx, sent}
use compuguessr.Hashmap.{Map, get_key_str}
use compuguessr.Hashmap.Lookup.{IsValid, view, get_key_uint-scan}
use compuguessr.Request.{Request}
use compuguessr.Util.Hash.{Crc, hash_str}
use compuguessr.Router.Account.{Moment}
use compuguessr.Router.Profile.{World}
use compuguessr.Router.Replies.{not_found}
use compuguessr.Router.Routes.{Handler, guest, handlers, routes, call_at, end_uri, reply}
use compuguessr.Router.Routes.Answer.{serve, answer-serve, whole_reply, reply-sends}
use compuguessr.Router.Routes.Table.{routed}
use compuguessr.Router.Safe.{IsWorld, IsReady, Settles}
use compuguessr.Router.Safe.Calls.{call-Settles}
use compuguessr.Router.Safe.Sessions.{Ends, same-Settles}

-- What waits in the transmit buffer.
pub record IsReply (tx tx' : Buffer) : Type 0 where
  pub valid : IsTx tx'
  pub same_len : tx'.len ≡ tx.len
  pub begins : tx'.pos ≡ 0
  pub waits : 0 < tx'.valid

waits_after :
    (tx : Buffer)
    → IsTx tx
    → (id : ℕ) (body : List ℕ) → sent tx ≡ whole_reply id body
    → 0 < tx.valid
waits_after tx i id body sends = elim (Bool-cases (tx.valid == 0)) [
  | inr some_wait ↦ ground arith
  | inl empty ↦
      let none_wait : tx.valid ≡ 0 = ground arith in
      let same : length (sent tx) ≡ length (whole_reply id body) = ap length sends in
      absurd (omega (arith, same, length-take tx.valid tx.buf))
]

-- Each route leads to one of the ten handlers.
abbrev Below : Option ℕ → Type 0
Below none = Unit {0}
Below (some n) = n < 10

abbrev AllBelow : List (List ℕ × ℕ) → Type 0
AllBelow [] = Unit {0}
AllBelow ((path, handler) ∷ rest) = (handler < 10) × AllBelow rest

Below-if :
    (test : Bool) (n : ℕ) (before : Option ℕ)
    → n < 10
    → Below before
    → Below (if test then some n else before)
Below-if true n before h b = h
Below-if false n before h b = b

routed-Below :
    (hw : Crc) (key : ℕ) (list : List (List ℕ × ℕ)) (before : Option ℕ)
    → AllBelow list
    → Below before
    → Below (routed hw key list before)
unfolding routed
routed-Below hw key [] before all b = b
routed-Below hw key ((path, handler) ∷ rest) before all b =
    routed-Below hw key rest _ all.1 (Below-if (key == hash_str hw path) handler before all.0 b)

handler_at : (n : ℕ) → n < 10 → (h : Handler) × (get_elem? handlers n ≡ some h)
handler_at n few = (get_or handlers n guest, get_elem?-eq-get_or handlers n guest few)

all_below : AllBelow routes
all_below =
    ((
      omega arith,
      (
        omega arith,
        (
          omega arith,
          (
            omega arith,
            (
              omega arith,
              (omega arith, (omega arith, (omega arith, (omega arith, (omega arith, tt))))),
            ),
          ),
        ),
      ),
    ))

module _ (hw : Crc) (table : List Challenge) (sorted : IsSorted table) where
  -- The map is valid, and its keys lead where the program has put them.
  pub record IsRouting (m : Map) : Type 0 where
    pub valid : IsValid m
    pub reads : (key : ℕ) → view m key ≡ routed hw key routes none

  module _ (w : World) (req : Request) (t : Moment) (g : IsWorld w) (ready : IsReady w t) where
    serve-Settles : (route : Option ℕ) → Below route → Settles Ends (serve hw table route w req t)
    unfolding call_at
    serve-Settles none b = same-Settles w not_found g refl
    serve-Settles (some n) b =
        let (h, e) = handler_at n b in rw e (call-Settles hw table h w req t sorted g ready)

  -- On well-formed databases and a transmit buffer of the size that every client has, the reply to
  -- a request ends, and either the databases stay well formed and a reply waits to be sent from
  -- the start of the buffer, or a handler overran one of its own buffers.
  pub reply-Settles :
      (m : Map) (w : World) (tx : Buffer) (req : Request) (t : Moment)
      → IsRouting m
      → IsWorld w
      → IsReady w t
      → IsTx tx
      → tx.len ≡ 65790
      → Settles
          (λ r. IsWorld r.0 × IsReply tx r.1 × (r.2 ≡ end_uri req))
          (reply hw table m w tx req t)
  unfolding reply get_key_str
  reply-Settles m w tx req t routing g ready i size =
      let key = hash_str hw (c_str (end_uri req).uri) in
      let below : Below (view m key) =
        rw (routing.reads key) (routed-Below hw key routes none all_below tt) in
      elim (serve-Settles w (end_uri req) t g ready (view m key) below) [
        | inl e ↦ inl (
            rw
              (
                get_key_uint-scan m key routing.valid,
                answer-serve hw table m w (end_uri req) t key ∙ e,
              )
              refl)
        | inr ((w', body), e, (g', short)) ↦
            let (tx', done, valid, sends, len, begins) =
              reply-sends hw table m w w' tx req t body routing.valid i e (omega (arith, short)) in
            inr (
              _,
              done,
              (
                g',
                record {
                  valid = valid;
                  same_len = len;
                  begins = begins;
                  waits = waits_after tx' valid req.req_id body sends;
                },
                refl,
              ),
            )
      ]
