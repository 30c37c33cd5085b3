-- ===== src/App/Peer/Steps.antt =====
-- The life of a client, as steps of the program and of the kernel.
use compuguessr.Base.{ℕ, ◌+◌, ◌≤◌, ◌≡◌, sym, ap, ◌∙◌, inl, inr, List, Run, ok, fail, arith, length}
use mathlib.Core.Path.{subst}
use compuguessr.Base.Int.{ℤ}
use compuguessr.Base.Text.{length-write}
use compuguessr.Challenges.{Challenge}
use compuguessr.Challenges.Search.{IsSorted}
use compuguessr.Clients.{Client}
use compuguessr.Fastcgi.Params.Lengths.{IsBytes}
use compuguessr.Hashmap.{Map}
use compuguessr.Router.Account.{Moment}
use compuguessr.Router.Profile.{World}
use compuguessr.Router.Safe.{IsReady}
use compuguessr.Router.Safe.Replying.{IsRouting}
use compuguessr.Util.Hash.{Crc}
use compuguessr.App.Peer.{fed, client_cqe_handle, client_state_handle}
use compuguessr.App.Peer.Buffers.{IsBytes-write}
use compuguessr.App.Peer.Safe.{IsPeer, Answers, Handles, Serves}
use compuguessr.App.Peer.Life.{client_state_handle-IsPeer, client_cqe_handle-Handles}

pub fed-IsPeer :
    (c : Client) (bytes : List ℕ)
    → IsPeer c
    → IsBytes bytes
    → c.fcgi.rx.valid + length bytes ≤ c.fcgi.rx.len
    → IsPeer (fed c bytes)
fed-IsPeer c bytes p are fits =
    let s = p.sound in
    record {
      sound = record {
        rx = record {
          sized =
              length-write c.fcgi.rx.buf c.fcgi.rx.valid bytes (omega (arith, fits, s.rx.sized))
              ∙ s.rx.sized;
          filled = s.rx.filled;
          small = s.rx.small;
          bytes = IsBytes-write c.fcgi.rx.buf c.fcgi.rx.valid bytes s.rx.bytes are;
        };
        rx_len = s.rx_len;
        tx = s.tx;
        tx_len = s.tx_len;
        tx_pos = s.tx_pos;
        req = s.req;
        padding = s.padding;
      };
      reads = p.reads;
      writes = p.writes;
    }

module _ (hw : Crc) (table : List Challenge) (routes : Map) where
  -- A round of the loop asks for the client, bytes arrive for it, or a completion is handled.
  pub data Step : World → Client → World → Client → Type 0 where
    asks : (w : World) (c : Client) (i : ℕ) → Step w c w (client_state_handle i c).0
    arrives :
        (w : World) (c : Client) (bytes : List ℕ)
        → IsBytes bytes
        → c.fcgi.rx.valid + length bytes ≤ c.fcgi.rx.len
        → Step w c w (fed c bytes)
    completes :
        (w w' : World) (c c' : Client) (t : Moment) (res : ℤ)
        → IsReady w t
        → Answers c res
        → client_cqe_handle hw table routes w c t res ≡ ok (w', c')
        → Step w c w' c'

  pub data Reaches : World → Client → World → Client → Type 0 where
    stays : (w : World) (c : Client) → Reaches w c w c
    goes :
        (w w₁ w₂ : World) (c c₁ c₂ : Client)
        → Step w c w₁ c₁
        → Reaches w₁ c₁ w₂ c₂
        → Reaches w c w₂ c₂

abbrev value : {A : Type 0} → A → Run A → A
value d (ok a) = a
value d (fail why) = d

handled : {A : Type 0} (P : A → Type 0) (r : Run A) (a : A) → Handles P r → r ≡ ok a → P a
handled P r a (inl e) done = absurd (ground (arith, sym e ∙ done))
handled P r a (inr (inl e)) done = absurd (ground (arith, sym e ∙ done))
handled P r a (inr (inr (b, e, p))) done =
    let same : b ≡ a = ap (value a) (sym e ∙ done) in subst P same p

module _ (hw : Crc) (table : List Challenge) (sorted : IsSorted table) (routes : Map)
    (routing : IsRouting hw table sorted routes) where
  Step-Serves :
      (w w' : World) (c c' : Client)
      → Step hw table routes w c w' c'
      → Serves (w, c)
      → Serves (w', c')
  Step-Serves w w' c c' (asks _ _ i) (g, p) = (g, (client_state_handle-IsPeer i c p).0)
  Step-Serves w w' c c' (arrives _ _ bytes are fits) (g, p) = (g, fed-IsPeer c bytes p are fits)
  Step-Serves w w' c c' (completes _ _ _ _ t res ready a done) (g, p) =
      handled Serves _ (w', c')
        (client_cqe_handle-Handles hw table sorted routes routing w c t res g ready p a) done

  -- With the routes of the program and a sorted table, from a well-formed client and well-formed
  -- databases: every state that is reached has a well-formed client and well-formed databases. It is
  -- reached by any sequence of steps in which the loop asks for the client, bytes arrive that fit
  -- behind those that wait, or a completion is handled to its end: a completion that has no more
  -- bytes than were asked for, at a moment whose session id is not in the database yet, while the
  -- database has at least two unused slots.
  pub Reaches-Serves :
      (w w' : World) (c c' : Client)
      → Reaches hw table routes w c w' c'
      → Serves (w, c)
      → Serves (w', c')
  Reaches-Serves w w' c c' (stays _ _) s = s
  Reaches-Serves w w' c c' (goes _ w₁ _ _ c₁ _ step rest) s =
      Reaches-Serves w₁ w' c₁ c' rest (Step-Serves w w₁ c c₁ step s)
