-- ===== src/Router/Safe.antt =====
-- When the two databases are well formed, and what it means that a handler ends well.
pub mod Sizes
pub mod Bounded
pub mod Formless
pub mod Graded
pub mod Answered
pub mod Within
pub mod Forms
pub mod Edits
pub mod Sessions
pub mod Handlers
pub mod Grading
pub mod Calls
pub mod Replying
use compuguessr.Base.{
  ℕ, ◌+◌, ◌-◌, ◌≤◌, ◌<◌, ◌≡◌, refl, ◌∙◌, ◌≢◌, ◌⊎◌, inl, inr, Bool, true, false, Option, none, some,
  List, Run, ok, fail, out_of_bounds, ◌>>=◌, Returns, arith, length, get_or, ltb, if◌then◌else◌,
  Bool-cases,
}
use compuguessr.Base.Search.{count_if}
use compuguessr.Base.Text.{c_str}
use compuguessr.Hashmap.Lookup.{view, is_vacant}
use compuguessr.SessionDb.{session_id_get}
use compuguessr.SessionDb.Invariant
use compuguessr.UserDb.{UserDb, UserEntry, pool_size, is_idle}
use compuguessr.UserDb.Invariant.{user_at}
use compuguessr.UserDb.Invariant as Users
use compuguessr.Router.Account.{Moment}
use compuguessr.Router.Profile.{World, respond}
use compuguessr.Router.Verify.Score.{HasRoom}

-- An active account: its strings end inside their fields, and its hashes fill no more than theirs.
pub record IsUser (u : UserEntry) : Type 0 where
  pub room : HasRoom u
  pub name : length (c_str u.username) ≤ 31
  pub text : length (c_str u.description) ≤ 2047

pub record AreUsers (db : UserDb) : Type 0 where
  pub valid : Users.IsValid db
  pub each : (k : ℕ) → k < pool_size → is_idle (user_at db k) ≡ false → IsUser (user_at db k)

pub record IsWorld (w : World) : Type 0 where
  pub sessions : Invariant.IsValid w.sessions
  pub users : AreUsers w.users

-- What a handler needs to open a session: an id that is not in use, and an unused slot to spare.
pub record IsReady (w : World) (t : Moment) : Type 0 where
  pub new : view w.sessions.map (session_id_get t.draw) ≡ none
  pub roomy : 1 < count_if is_vacant w.sessions.map.entries

-- The code ends with such a result, or it has written or read past the end of a buffer; it has not
-- looped for ever.
abbrev pub Settles : {A : Type 0} → (A → Type 0) → Run A → Type 0
Settles P r = (r ≡ fail out_of_bounds) ⊎ Returns r P

module _ {A B : Type 0} (P : A → Type 0) (Q : B → Type 0) where
  pub Settles-bind :
      (r : Run A) (f : A → Run B)
      → Settles P r
      → ((a : A) → P a → Settles Q (f a))
      → Settles Q (r >>= f)
  Settles-bind r f (inl e) k = inl (rw e refl)
  Settles-bind r f (inr (a, e, p)) k = rw e (k a p)

-- What is sent is the text, and it fits.
pub respond-Settles :
    (size : ℕ) (p : List ℕ) → Settles (λ body. (body ≡ p) × (length p ≤ size)) (respond size p)
respond-Settles size p = elim (Bool-cases (ltb size (length p))) [
  | inl over ↦ inl (rw over refl)
  | inr fits ↦ inr (p, rw fits refl, (refl, ground arith))
]
