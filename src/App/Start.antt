-- ===== src/App/Start.antt =====
-- `cg_main_init` of src/app/cg_app.c, and `main` up to its loop.
pub mod Files
pub mod Serves
use compuguessr.Base.{
  ℕ, zero, suc, ◌+◌, Option, none, some, List, [], ◌∷◌, ◌++◌, Run, ok, ◌>>=◌, replicate, false,
}
use compuguessr.Base.Int.{ℤ, pos}
use compuguessr.Base.Text.{codes, write}
use compuguessr.Clients.{Client, free_state, pool_init}
use compuguessr.Env.{Env, AuxType}
use compuguessr.Env as Env_mod
use compuguessr.Env.Vdso.{Image, time_init, write_stdout}
use compuguessr.Fastcgi.Parse.{Buffer}
use compuguessr.Fastcgi.Record.{Header}
use compuguessr.Hashmap.{Map}
use compuguessr.Hashmap.Delete.{fresh}
use compuguessr.Request.{Request, max_uri_len, max_method_len, max_stdin_len}
use compuguessr.Router.Routes.{map_init}
use compuguessr.SessionDb.{SessionDb, Mapped}
use compuguessr.SessionDb as Sessions
use compuguessr.Uring.{Ring}
use compuguessr.UserDb.{UserDb}
use compuguessr.UserDb as Users
use compuguessr.Util.Hash.{Crc}
use compuguessr.App.{App, Listener, accept_sqe}
use compuguessr.App.Accepting.{
  Opening, Opened, exits, listens, fastcgi_init, fastcgi_setup, timestamp_tick,
}

-- What the process is started with: its environment, the auxiliary vector, the memory at an
-- address, and what the maps of the two files give.
pub record Stack : Type 0 where
  pub envp : List (List ℕ)
  pub auxv : List (AuxType × ℕ)
  pub image : ℕ → Image
  pub sessions_file : Mapped
  pub users_file : Option (ℕ × UserDb)

-- The global variables that `cg_main_init` sets, and what it writes. A database that is missing is
-- a null pointer; nothing looks at it here.
pub record Globals : Type 0 where
  pub env : Env
  pub vdso_gettime : ℕ
  pub written : List ℕ
  pub ts_buf : List ℕ
  pub route_map : Map
  pub sessiondb : Option SessionDb
  pub userdb : Option UserDb

-- The test of the length of the path has an empty body.
unfoldable pub main_init : Stack → Globals
unfolding time_init write_stdout
main_init stack =
    let env = (Env_mod.init stack.envp stack.auxv (pos 0)).0 in
    record {
      env = env;
      vdso_gettime = time_init stack.image stack.auxv;
      written = write_stdout env;
      ts_buf = write (replicate 20 0) 0 (codes "0000-00-00 00:00:00");
      route_map = fresh 32;
      sessiondb = Sessions.init stack.sessions_file;
      userdb = Users.init stack.users_file;
    }

abbrev pub zero_buffer : ℕ → Buffer
zero_buffer address = record {
  address = address;
  buf = replicate 65790 0;
  len = 0;
  valid = 0;
  pos = 0;
}

abbrev pub zero_header : Header
zero_header = record {
  version = 0;
  type = 0;
  request_id = 0;
  content_len = 0;
  padding_len = 0;
  reserved = 0;
}

-- The zeroed memory of a client. Its `rx_buf` stands 48 bytes from its start, behind the states, the
-- header, the descriptor and the record of the buffer; its `tx_buf` 65816 bytes behind that.
abbrev pub zero_client : ℕ → Client
zero_client address = record {
  state = free_state;
  fcgi = record {
    state = 0;
    saved_hdr = zero_header;
    sockfd = pos 0;
    rx = zero_buffer (address + 48);
    tx = zero_buffer (address + 65864);
  };
  req = record {
    uri = replicate max_uri_len 0;
    method = replicate max_method_len 0;
    session_id = replicate 32 0;
    req_id = 0;
    keep_alive = 0;
    stdin_len = 0;
    stdin_buf = replicate max_stdin_len 0;
  };
}

-- The array `g_cli_ctx_pool`; a client takes 135936 bytes.
unfoldable pub zero_pool : ℕ → ℕ → List Client
zero_pool zero address = []
zero_pool (suc count) address = zero_client address ∷ zero_pool count (address + 135936)

abbrev pub max_clients : ℕ
max_clients = 1024

abbrev pub zero_listener : Listener
zero_listener = record {
  state = accept_sqe;
  family = false;
  path = replicate 108 0;
  sockfd = pos 0;
}

-- The program goes into its loop, or it exits; or it goes on without a database, and reads address
-- 0 once it needs it.
pub data Started : Type 0 where
  serves : App → Started
  left : ℕ → App → Started
  no_database : Started

-- `ring` is what `cg_uring_init` has set up, `pool_at` and `tick` the addresses of the pool and of
-- the interval.
module _ (hw : Crc) (file : List ℕ) (ring : Ring) (pool_at tick : ℕ) where
  abbrev pub before_setup : Globals → SessionDb → UserDb → ℕ → App
  before_setup g sessions users now = timestamp_tick tick now (record {
    ts_buf = g.ts_buf;
    ring = ring;
    listener = zero_listener;
    pool = zero_pool max_clients pool_at;
    routes = g.route_map;
    world = record { sessions = sessions; users = users };
    log = g.written ∷ [];
    closed = [];
  })

  unfoldable pub with_routes : Opened file → Run Started
  with_routes (exits code app) = ok (left code app)
  with_routes (listens app) =
      map_init hw app.routes >>= λ routes. ok (serves (record app { routes = routes }))

  unfoldable pub with_databases :
      Globals → Option SessionDb → Option UserDb → Opening file → ℕ → Run Started
  unfolding with_routes
  with_databases g none users o now = ok no_database
  with_databases g (some sessions) none o now = ok no_database
  with_databases g (some sessions) (some users) o now =
      let app = before_setup g sessions users now in
      let env = g.env in
      fastcgi_init app.listener env.fastcgi_sock >>= λ l. with_routes (
        fastcgi_setup file o now
          (record app { listener = l; pool = pool_init max_clients app.pool }))

  unfoldable pub startup : Stack → Opening file → ℕ → Run Started
  unfolding main_init with_databases
  startup stack o now = let g = main_init stack in with_databases g g.sessiondb g.userdb o now
