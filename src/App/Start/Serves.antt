-- ===== src/App/Start/Serves.antt =====
-- What `main` of src/app/cg_app.c has set up when it goes into its loop.
use compuguessr.Base.{
  ℕ, ◌≤◌, ◌≡◌, refl, ◌⊎◌, inl, inr, Option, none, some, List, ok, Returns, arith, length,
  length-take, take, ltb, false,
}
use compuguessr.Base.Int.{ℤ, pos, negsuc}
use compuguessr.Base.Text.{c_str}
use compuguessr.Challenges.{Challenge}
use compuguessr.Challenges.Search.{IsSorted}
use compuguessr.Hashmap.Delete.{fresh}
use compuguessr.Router.Routes.{map_init}
use compuguessr.Router.Routes.Table.{map_init-HasRoutes}
use compuguessr.Router.Safe.{IsWorld, AreUsers}
use compuguessr.SessionDb.{SessionDb, attach, magic_bytes}
use compuguessr.SessionDb as Sessions
use compuguessr.SessionDb.Invariant as SessionsInvariant
use compuguessr.UserDb.{UserDb, new_file, zero_entry}
use compuguessr.UserDb as Users
use compuguessr.Util.Hash.{Crc}
use compuguessr.Clients.{pool_init}
use compuguessr.Uring.{Ring}
use compuguessr.App.{App, log_ts}
use compuguessr.App.Accepting.{
  Opening, Opened, exits, listens, fastcgi_init, fastcgi_setup, timestamp_tick,
}
use compuguessr.App.Loop.Safe.{ArePeers, IsServing}
use compuguessr.App.Start.Files.{zeroed-ArePeers, AreSound, users_sound, sessions_sound}
use compuguessr.Uring.{timeout, zero_sqe}
use compuguessr.Uring.Queue.{submit}
use compuguessr.App.{accept_sqe, tag_timestamp}
use compuguessr.App.Start.{
  Stack, Globals, main_init, Started, serves, left, no_database, with_routes, with_databases,
  startup, max_clients, zero_pool,
}

-- Where the start leaves the program.
abbrev pub Starts : (App → Type 0) → Globals → Started → Type 0
Starts Ready g (serves app) = Ready app
Starts Ready g (left code app) = code ≡ 1
Starts Ready g no_database = (g.sessiondb ≡ none) ⊎ (g.userdb ≡ none)

sign_cases : (z : ℤ) → ((n : ℕ) × (z ≡ pos n)) ⊎ ((n : ℕ) × (z ≡ negsuc n))
sign_cases (pos n) = inl (n, refl)
sign_cases (negsuc n) = inr (n, refl)

-- The ring holds the request for the first tick, the listener is about to ask for connections, the
-- clients are those of the zeroed memory, all of them free, and the databases are those that were
-- opened.
pub record IsListening (ring : Ring) (pool_at tick : ℕ) (g : Globals) (app : App) : Type 0 where
  pub asked :
      app.ring
      ≡ submit ring (record zero_sqe {
        opcode = timeout;
        fd = negsuc 0;
        addr = tick;
        user_data = tag_timestamp;
      })
  pub listens : app.listener.state ≡ accept_sqe
  pub clients : app.pool ≡ pool_init max_clients (zero_pool max_clients pool_at)
  pub sessions : g.sessiondb ≡ some app.world.sessions
  pub users : g.userdb ≡ some app.world.users

module _ (hw : Crc) (table : List Challenge) (sorted : IsSorted table) (file : List ℕ) (ring : Ring)
    (pool_at tick : ℕ) where
  -- The program is well formed, and has asked for the tick and for nothing else.
  abbrev pub Begins : Globals → App → Type 0
  Begins g app = IsServing hw table sorted app × IsListening ring pool_at tick g app

  -- Everything but the routes, which are still the empty table.
  record IsPrepared (g : Globals) (app : App) : Type 0 where
    world : IsWorld app.world
    peers : ArePeers app.pool
    routes : app.routes ≡ fresh 32
    asked :
        app.ring
        ≡ submit ring (record zero_sqe {
          opcode = timeout;
          fd = negsuc 0;
          addr = tick;
          user_data = tag_timestamp;
        })
    clients : app.pool ≡ pool_init max_clients (zero_pool max_clients pool_at)
    sessions : g.sessiondb ≡ some app.world.sessions
    users : g.userdb ≡ some app.world.users

  logged-IsPrepared :
      (g : Globals) (level line msg : List ℕ) (now : ℕ) (app : App)
      → IsPrepared g app
      → IsPrepared g (log_ts file level line msg now app)
  unfolding log_ts
  logged-IsPrepared g level line msg now app s = record {
    world = s.world;
    peers = s.peers;
    routes = s.routes;
    asked = s.asked;
    clients = s.clients;
    sessions = s.sessions;
    users = s.users;
  }

  abbrev Opens : Globals → Opened file → Type 0
  Opens g (exits code app) = code ≡ 1
  Opens g (listens app) = IsPrepared g app × (app.listener.state ≡ accept_sqe)

  fastcgi_setup-Opens :
      (g : Globals) (o : Opening file) (now : ℕ) (app : App)
      → IsPrepared g app
      → Opens g (fastcgi_setup file o now app)
  unfolding fastcgi_setup log_ts
  fastcgi_setup-Opens g o now app s = elim (sign_cases o.socket) [
    | inr (e, failed) ↦ rw failed refl
    | inl (fd, made) ↦ elim (sign_cases o.bind) [
      | inr (e, failed) ↦ rw (made, failed) refl
      | inl (b, bound) ↦ elim (sign_cases o.listen) [
        | inr (e, failed) ↦ rw (made, bound, failed) refl
        | inl (l, listening) ↦
            rw (made, bound, listening)
              (
                record {
                  world = s.world;
                  peers = s.peers;
                  routes = s.routes;
                  asked = s.asked;
                  clients = s.clients;
                  sessions = s.sessions;
                  users = s.users;
                },
                refl,
              )
      ]
    ]
  ]

  with_routes-Starts :
      (g : Globals) (opened : Opened file)
      → Opens g opened
      → Returns (with_routes hw file ring pool_at tick opened) (Starts (Begins g) g)
  unfolding with_routes
  with_routes-Starts g (exits code app) e = (left code app, refl, e)
  with_routes-Starts g (listens app) (s, state) =
      let (m, e, (valid, reads)) = map_init-HasRoutes hw in
      let made : map_init hw app.routes ≡ ok m = rw s.routes e in
      rw made (
        serves (record app { routes = m }),
        refl,
        (
          record {
            world = s.world;
            peers = s.peers;
            routing = record { valid = valid; reads = reads };
          },
          record {
            asked = s.asked;
            listens = state;
            clients = s.clients;
            sessions = s.sessions;
            users = s.users;
          },
        ),
      )

  databases-Starts :
      (g : Globals) (sessions : Option SessionDb) (users : Option UserDb) (o : Opening file)
      (now : ℕ)
      → g.sessiondb ≡ sessions
      → g.userdb ≡ users
      → g.route_map ≡ fresh 32
      → ((db : SessionDb) → sessions ≡ some db → SessionsInvariant.IsValid db)
      → ((db : UserDb) → users ≡ some db → AreUsers db)
      → length (c_str g.env.fastcgi_sock) ≤ 108
      → Returns
          (with_databases hw file ring pool_at tick g sessions users o now)
          (Starts (Begins g) g)
  unfolding with_databases fastcgi_init timestamp_tick
  databases-Starts g none users o now es eu er hs hu fits = (no_database, refl, inl es)
  databases-Starts g (some s) none o now es eu er hs hu fits = (no_database, refl, inr eu)
  databases-Starts g (some s) (some u) o now es eu er hs hu fits =
      let sock = g.env.fastcgi_sock in
      let room : ltb 108 (length (take (length (c_str sock)) sock)) ≡ false =
        ground (arith, length-take (length (c_str sock)) sock) in
      rw room (
        with_routes-Starts g _ (
          fastcgi_setup-Opens g o now _ (record {
            world = record { sessions = hs s refl; users = hu u refl };
            peers = zeroed-ArePeers max_clients pool_at;
            routes = er;
            asked = refl;
            clients = refl;
            sessions = es;
            users = eu;
          })))

-- If files that are not empty hold what valid databases left, and the path of the socket fits its
-- place, then `main` goes into its loop with every client and both databases well formed, the
-- databases being those that were opened and the clients the zeroed ones, all of them initialized,
-- with the routes of the program, the first tick asked for and the listener about to ask for
-- connections, for any table that is sorted; or it exits with 1; or one of the databases could not be opened.
pub startup-Starts :
    (hw : Crc) (table : List Challenge) (sorted : IsSorted table) (file : List ℕ) (ring : Ring)
    (pool_at tick : ℕ) (stack : Stack) (o : Opening file) (now : ℕ)
    → AreSound stack
    → (let g = main_init stack in length (c_str g.env.fastcgi_sock) ≤ 108)
    → Returns
        (startup hw file ring pool_at tick stack o now)
        (let g = main_init stack in Starts (Begins hw table sorted file ring pool_at tick g) g)
unfolding startup main_init
startup-Starts hw table sorted file ring pool_at tick stack o now sound fits =
    databases-Starts hw table sorted file ring pool_at tick (main_init stack)
      (Sessions.init stack.sessions_file) (Users.init stack.users_file) o now refl refl refl
      (λ db e. sessions_sound stack.sessions_file db sound.sessions e)
      (λ db e. users_sound stack.users_file db sound.users e) fits
