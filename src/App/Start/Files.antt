-- ===== src/App/Start/Files.antt =====
-- What the program starts on: the zeroed pool of clients, and the two files.
use compuguessr.Base.{
  ℕ, zero, suc, ◌+◌, ◌≡◌, refl, sym, ◌≢◌, inl, inr, Bool-cases, Option, none, some, arith,
  length-replicate, get_or-replicate, ◌==◌,
}
use compuguessr.Clients.{pool_init, client_init}
use compuguessr.Router.Safe.{AreUsers}
use compuguessr.SessionDb.{SessionDb, attach, magic_bytes}
use compuguessr.SessionDb as Sessions
use compuguessr.SessionDb.Invariant as SessionsInvariant
use compuguessr.UserDb.{UserDb, new_file, zero_entry}
use compuguessr.UserDb as Users
use compuguessr.UserDb.Invariant.{new_file-IsValid}
use compuguessr.App.Loop.Safe.{ArePeers}
use compuguessr.App.Start.{Stack, zero_pool}

pub zeroed-ArePeers : (count address : ℕ) → ArePeers (pool_init count (zero_pool count address))
unfolding pool_init zero_pool client_init
zeroed-ArePeers zero address = tt
zeroed-ArePeers (suc count) address = (
  record {
    sound = record {
      rx = record {
        sized = length-replicate 65790 0;
        filled = omega arith;
        small = omega arith;
        bytes = λ i. rw (get_or-replicate {A = ℕ} 65790 i 0) (omega arith);
      };
      rx_len = refl;
      tx = record { sized = length-replicate 65790 0; filled = omega arith; small = omega arith };
      tx_len = refl;
      tx_pos = omega arith;
      req = record {
        uri_size = length-replicate 128 0;
        method_size = length-replicate 16 0;
        session_size = length-replicate 32 0;
        stdin_size = length-replicate 4096 0;
        stdin_fits = omega arith;
      };
      padding = omega arith;
    };
    reads = λ r. absurd (ground (arith, r));
    writes = λ r. absurd (ground (arith, r));
  },
  zeroed-ArePeers count (address + 135936),
)

-- A file that is not empty holds what a valid database left.
pub record AreSound (stack : Stack) : Type 0 where
  pub sessions :
      (st_size : ℕ) (db : SessionDb)
      → stack.sessions_file ≡ some (st_size, db)
      → st_size ≢ 0
      → SessionsInvariant.IsValid (attach db)
  pub users :
      (st_size : ℕ) (db : UserDb)
      → stack.users_file ≡ some (st_size, db)
      → st_size ≢ 0
      → AreUsers db

new_file-AreUsers : AreUsers new_file
new_file-AreUsers = record {
  valid = new_file-IsValid;
  each = λ k lt busy. absurd (ground (arith, get_or-replicate 1024 k zero_entry));
}

pub users_sound :
    (file : Option (ℕ × UserDb)) (db' : UserDb)
    → ((st_size : ℕ) (db : UserDb) → file ≡ some (st_size, db) → st_size ≢ 0 → AreUsers db)
    → Users.init file ≡ some db'
    → AreUsers db'
unfolding Users.init
users_sound none db' kept e = absurd (ground arith)
users_sound (some (st_size, db)) db' kept e = elim (Bool-cases (st_size == 0)) [
  | inl new ↦
      let same : new_file ≡ db' = ground (arith, (rw new at e)) in rw (sym same) new_file-AreUsers
  | inr old ↦ elim (Bool-cases (db.hdr.magic == Users.magic_bytes)) [
    | inr wrong ↦ absurd (ground (arith, (rw (old, wrong) at e)))
    | inl right ↦
        let same : db ≡ db' = ground (arith, (rw (old, right) at e)) in
        rw (sym same) (kept st_size db refl (ground arith))
  ]
]

pub sessions_sound :
    (file : Option (ℕ × SessionDb)) (db' : SessionDb)
    → ((st_size : ℕ) (db : SessionDb)
        → file ≡ some (st_size, db)
        → st_size ≢ 0
        → SessionsInvariant.IsValid (attach db))
    → Sessions.init file ≡ some db'
    → SessionsInvariant.IsValid db'
unfolding Sessions.init SessionsInvariant.empty
sessions_sound none db' kept e = absurd (ground arith)
sessions_sound (some (st_size, db)) db' kept e = elim (Bool-cases (st_size == 0)) [
  | inl new ↦
      let same : attach Sessions.new_file ≡ db' = ground (arith, (rw new at e)) in
      rw (sym same) SessionsInvariant.empty-IsValid
  | inr old ↦ elim (Bool-cases (db.hdr.magic == magic_bytes)) [
    | inr wrong ↦ absurd (ground (arith, (rw (old, wrong) at e)))
    | inl right ↦
        let same : attach db ≡ db' = ground (arith, (rw (old, right) at e)) in
        rw (sym same) (kept st_size db refl (ground arith))
  ]
]
