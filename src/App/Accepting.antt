-- ===== src/App/Accepting.antt =====
-- The listener: `cg_main_fastcgi_setup`, `cg_main_fastcgi_state_handle`,
-- `cg_main_fastcgi_cqe_handle` and `cg_main_timestamp_tick` of src/app/cg_app.c, and
-- `cg_fastcgi_init` of src/core/cg_fastcgi.c. `now` is what the clock gives.
use compuguessr.Base.{
  ℕ, Bool, true, Option, none, some, List, [], ◌∷◌, ◌++◌, Run, ok, fail, out_of_bounds, length,
  take, get_elem?, set, replicate, ltb, if◌then◌else◌,
}
use compuguessr.Base.Int.{ℤ, pos, negsuc}
use compuguessr.Base.Text.{codes, c_str, write}
use compuguessr.Clients.{Client, client_init, alloc}
use compuguessr.Time.{datetime_str}
use compuguessr.Uring.{Sqe, Cqe, timeout, accept, zero_sqe}
use compuguessr.Uring.Queue.{submit}
use compuguessr.App.{
  App, Listener, accept_sqe, accept_cqe, error_state, tag_ptr, tag_fastcgi, tag_timestamp, log_ts,
}

-- `sun_path` of `struct sockaddr_un` has 108 bytes.
abbrev pub path_max : ℕ
path_max = 108

-- `cg_fastcgi_init`, with the path and its length from the environment; nothing compares the length
-- with the room.
unfoldable pub fastcgi_init : Listener → List ℕ → Run Listener
fastcgi_init ctx sock =
    let path = take (length (c_str sock)) sock in
    if ltb path_max (length path)
    then fail out_of_bounds
    else ok (record ctx { family = true; path = write (replicate path_max 0) 0 path })

abbrev pub note : List ℕ
note = codes "note"

abbrev pub fatal : List ℕ
fatal = codes "FATAL"

-- The new client is set up for its descriptor.
abbrev pub admit : Client → ℕ → Client
admit c fd =
    let fcgi = client_init c.fcgi in record c { fcgi = record fcgi { sockfd = pos fd; state = 1 } }

abbrev pub admit_at : List Client → ℕ → ℕ → List Client
admit_at pool i fd = elim (get_elem? pool i) [ none ↦ pool | some c ↦ set pool i (admit c fd) ]

module _ (file : List ℕ) where
  -- What the three system calls give. The number that a bind error prints is left out.
  pub record Opening : Type 0 where
    pub socket : ℤ
    pub bind : ℤ
    pub listen : ℤ

  pub data Opened : Type 0 where
    exits : ℕ → App → Opened
    listens : App → Opened

  abbrev pub opened_listen : ℤ → ℕ → App → Opened
  opened_listen (negsuc e) now app =
      exits 1 (log_ts file fatal (codes "163") (codes "Listen error\n") now app)
  opened_listen (pos _) now app =
      let ctx = app.listener in
      listens (
        log_ts file note (codes "168") (codes "Listening on the socket\n") now
          (record app { listener = record ctx { state = accept_sqe } }))

  abbrev pub opened_bind : ℤ → Opening → ℕ → App → Opened
  opened_bind (negsuc e) o now app =
      exits 1 (log_ts file fatal (codes "154") (codes "Bind error\n") now app)
  opened_bind (pos _) o now app =
      opened_listen o.listen now
        (log_ts file note (codes "159") (codes "Bound to socket\n") now app)

  abbrev pub opened_socket : ℤ → Opening → ℕ → App → Opened
  opened_socket (negsuc e) o now app =
      exits 1 (log_ts file fatal (codes "144") (codes "Socket error\n") now app)
  opened_socket (pos fd) o now app =
      let ctx = app.listener in
      opened_bind o.bind o now (
        log_ts file note (codes "149") (codes "Created new socket\n") now
          (record app { listener = record ctx { sockfd = pos fd } }))

  unfoldable pub fastcgi_setup : Opening → ℕ → App → Opened
  fastcgi_setup o now app =
      opened_socket o.socket o now
        (log_ts file note (codes "140") (codes "Unlinked existing socket\n") now app)

  unfoldable pub fastcgi_state_handle : ℕ → App → App
  fastcgi_state_handle now app =
      let ctx = app.listener in
      elim ctx.state [
        | accept_cqe ↦ app
        | error_state ↦ app
        | accept_sqe ↦
            let sqe : Sqe = record zero_sqe {
              opcode = accept;
              fd = ctx.sockfd;
              multishot = true;
              nonblock_cloexec = true;
              user_data = tag_ptr 0 tag_fastcgi;
            } in
            log_ts file note (codes "202") (codes "Enqueued accept operation SQE\n") now
              (record app {
                ring = submit app.ring sqe;
                listener = record ctx { state = accept_cqe };
              })
      ]

  -- With the outcome of `cg_client_alloc`.
  unfoldable pub accepted : ℕ → Bool → App → Option ℕ × List Client → App
  accepted fd more app (none, pool) = record app { closed = app.closed ++ pos fd ∷ [] }
  accepted fd more app (some i, pool) =
      let ctx = app.listener in
      record app {
        pool = admit_at pool i fd;
        listener = if more then ctx else record ctx { state = accept_sqe };
      }

  unfoldable pub accept_result : ℤ → Bool → ℕ → App → App
  unfolding accepted
  accept_result (negsuc e) more now app =
      let ctx = app.listener in
      let logged = log_ts file (codes "error") (codes "226") (codes "Accept error\n") now app in
      record logged { listener = record ctx { state = accept_sqe } }
  accept_result (pos fd) more now app =
      let logged =
        log_ts file note (codes "232") (codes "Accepted incoming connection\n") now app in
      accepted fd more logged (alloc logged.pool)

  unfoldable pub fastcgi_cqe_handle : Cqe → ℕ → App → App
  unfolding accept_result
  fastcgi_cqe_handle cqe now app =
      let ctx = app.listener in
      elim ctx.state [
        | accept_sqe ↦ app
        | error_state ↦ app
        | accept_cqe ↦ accept_result cqe.res cqe.more now app
      ]

-- `cg_main_timestamp_tick`; `cg_uring_sqe_get` never gives a null pointer. `ts` is the address of
-- the interval.
unfoldable pub timestamp_tick : ℕ → ℕ → App → App
timestamp_tick ts now app =
    let sqe : Sqe = record zero_sqe {
      opcode = timeout;
      fd = negsuc 0;
      addr = ts;
      user_data = tag_timestamp;
    } in
    record app { ts_buf = datetime_str app.ts_buf now; ring = submit app.ring sqe }
