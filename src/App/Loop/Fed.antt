-- ===== src/App/Loop/Fed.antt =====
-- The bytes that arrive for the clients while the main loop waits.
use compuguessr.Base.{ℕ, ◌+◌, ◌≤◌, ◌≡◌, some, List, [], ◌∷◌, length, get_elem?, set}
use compuguessr.Clients.{Client}
use compuguessr.Fastcgi.Params.Lengths.{IsBytes}
use compuguessr.App.Peer.{fed}
use compuguessr.App.Peer.Steps.{fed-IsPeer}
use compuguessr.App.Loop.{feed}
use compuguessr.App.Loop.Safe.{ArePeers, ArePeers-at, ArePeers-set}

-- What arrives for a client are bytes, and they fit behind those that wait.
abbrev pub DoFit : List (ℕ × List ℕ) → List Client → Type 0
DoFit [] pool = Unit {0}
DoFit ((i, bytes) ∷ arrivals) pool =
    ((c : Client) × (get_elem? pool i ≡ some c)
      × IsBytes bytes
      × (c.fcgi.rx.valid + length bytes ≤ c.fcgi.rx.len)
      × DoFit arrivals (set pool i (fed c bytes)))

pub feed-ArePeers :
    (arrivals : List (ℕ × List ℕ)) (pool : List Client)
    → ArePeers pool
    → DoFit arrivals pool
    → ArePeers (feed arrivals pool)
unfolding feed
feed-ArePeers [] pool p f = p
feed-ArePeers ((i, bytes) ∷ arrivals) pool p (c, e, are, fits, rest) =
    rw (e, feed)
      (feed-ArePeers arrivals (set pool i (fed c bytes))
        (ArePeers-set pool i (fed c bytes) p
          (fed-IsPeer c bytes (ArePeers-at pool i c p e) are fits))
        rest)
