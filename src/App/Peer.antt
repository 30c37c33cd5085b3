-- ===== src/App/Peer.antt =====
-- A client of src/app/cg_app.c: `cg_main_client_state_handle` and `cg_main_client_cqe_handle`. An
-- address in a buffer of the client is its offset there.
pub mod Buffers
pub mod Safe
pub mod Life
pub mod Steps
pub mod Split
use compuguessr.Base.{
  ℕ, ◌+◌, ◌-◌, ◌<◌, Bool, true, false, ◌&&◌, Option, none, some, List, Run, ok, fail, ◌>>=◌, take,
  drop, ◌==◌, ltb, if◌then◌else◌,
}
use compuguessr.Base.Int.{ℤ, pos, negsuc}
use compuguessr.Base.Text.{write}
use compuguessr.Base.Words.{u32, sub_u32}
use compuguessr.Challenges.{Challenge}
use compuguessr.Clients.{Client, FastcgiClient, ClientState, free_state, in_use}
use compuguessr.Fastcgi.Parse.{Buffer, Parsed, parse, clear_type}
use compuguessr.Hashmap.{Map}
use compuguessr.Router.Account.{Moment}
use compuguessr.Router.Profile.{World}
use compuguessr.Router.Routes.{reply}
use compuguessr.Uring.{Sqe, Opcode, read, write as write_op, close, zero_sqe}
use compuguessr.Util.Copy.{memcpy_avx2}
use compuguessr.Util.Hash.{Crc}
use compuguessr.App.{tag_ptr, tag_client}

-- `enum cg_fastcgi_client_state`
abbrev pub free_client : ℕ
free_client = 0

abbrev pub read_sqe : ℕ
read_sqe = 1

abbrev pub read_cqe : ℕ
read_cqe = 2

abbrev pub write_sqe : ℕ
write_sqe = 3

abbrev pub write_cqe : ℕ
write_cqe = 4

abbrev pub close_sqe : ℕ
close_sqe = 5

abbrev pub close_cqe : ℕ
close_cqe = 6

abbrev pub goes_to : Client → ℕ → Client
goes_to c state = let fcgi = c.fcgi in record c { fcgi = record fcgi { state = state } }

abbrev pub is_negative : ℤ → Bool
is_negative (pos n) = false
is_negative (negsuc n) = true

-- What a read does to the client before it completes: the bytes that arrive are put where the read
-- has asked for them, behind those that wait.
abbrev pub fed : Client → List ℕ → Client
fed c bytes =
    let fcgi = c.fcgi in
    let rx = fcgi.rx in
    record c { fcgi = record fcgi { rx = record rx { buf = write rx.buf rx.valid bytes } } }

-- The client with the pointer `i`, and the entry that is enqueued for it.
unfoldable pub client_state_handle : ℕ → Client → Client × Option Sqe
client_state_handle i c =
    let fcgi = c.fcgi in
    let rx = fcgi.rx in
    let tx = fcgi.tx in
    let sqe : Sqe = record zero_sqe { fd = fcgi.sockfd; user_data = tag_ptr i tag_client } in
    if fcgi.state == read_sqe
    then (
      goes_to c read_cqe,
      some (record sqe { opcode = read; addr = rx.valid; len = sub_u32 rx.len rx.valid }),
    )
    else if fcgi.state == write_sqe
    then (
      goes_to c write_cqe,
      some (record sqe { opcode = write_op; addr = tx.pos; len = sub_u32 tx.valid tx.pos }),
    )
    else if fcgi.state == close_sqe
    then if is_negative fcgi.sockfd
      then (record c { state = free_state; fcgi = record fcgi { state = free_client } }, none)
      else (goes_to c close_cqe, some (record sqe { opcode = close }))
    else (c, none)

-- The rest of the buffer is moved to its start.
unfoldable pub compact : Buffer → ℕ → Buffer
unfolding memcpy_avx2
compact rx at =
    let leftover = sub_u32 rx.valid at in
    let moved =
      if ltb 0 leftover && ltb 0 at then memcpy_avx2 rx.address rx.buf 0 at leftover else rx.buf in
    record rx { buf = moved; valid = leftover; pos = 0 }

abbrev pub with_parsed : Client → Buffer → Parsed → Client
with_parsed c rx p =
    let fcgi = c.fcgi in
    record c { fcgi = record fcgi { rx = compact rx p.pos; saved_hdr = p.hdr }; req = p.req }

abbrev pub emptied : Buffer → Buffer
emptied b = record b { valid = 0; pos = 0 }

-- The connection is used for the next request.
abbrev pub renewed : Client → Client
renewed c =
    let fcgi = c.fcgi in
    record c {
      fcgi = record fcgi {
        rx = emptied fcgi.rx;
        tx = emptied fcgi.tx;
        saved_hdr = clear_type fcgi.saved_hdr;
        state = read_sqe;
      };
    }

unfoldable pub write_done : Client → ℤ → Client
write_done c (negsuc e) = goes_to c close_sqe
write_done c (pos n) =
    let fcgi = c.fcgi in
    let tx = fcgi.tx in
    let sent = record tx { pos = u32 (tx.pos + n) } in
    let c' : Client = record c { fcgi = record fcgi { tx = sent } } in
    let req = c.req in
    if ltb sent.pos tx.valid
    then goes_to c' write_sqe
    else if req.keep_alive == 0
    then goes_to c' close_sqe
    else renewed c'

abbrev pub close_done : Client → Client
close_done c =
    let fcgi = c.fcgi in
    record c { state = free_state; fcgi = record fcgi { sockfd = negsuc 0; state = free_client } }

module _ (hw : Crc) (table : List Challenge) (routes : Map) where
  -- `cg_route_map_reply`, and the next state.
  unfoldable pub route : World → Client → Moment → Run (World × Client)
  route w c t =
      let fcgi = c.fcgi in
      reply hw table routes w fcgi.tx c.req t >>= λ r.
      ok (r.0, record c { fcgi = record fcgi { tx = r.1; state = write_sqe }; req = r.2 })

  -- The parser never gives a negative status.
  unfoldable pub parsed : World → Client → Moment → Bool → Run (World × Client)
  unfolding route
  parsed w c t ready =
      let answered = route w c t in if ready then answered else ok (w, goes_to c read_sqe)

  -- With `n` bytes more in the buffer, where the kernel has put them.
  unfoldable pub received : World → Client → Moment → ℕ → Run (World × Client)
  unfolding parsed compact
  received w c t n =
      let fcgi = c.fcgi in
      let rx = fcgi.rx in
      let rx' = record rx { valid = u32 (rx.valid + n); pos = 0 } in
      parse rx' c.req fcgi.saved_hdr >>= λ p. parsed w (with_parsed c rx' p) t p.ready

  unfoldable pub read_done : World → Client → Moment → ℤ → Run (World × Client)
  unfolding received
  read_done w c t (negsuc e) = ok (w, goes_to c close_sqe)
  read_done w c t (pos n) =
      let more = received w c t n in if n == 0 then ok (w, goes_to c close_sqe) else more

  unfoldable pub client_cqe_handle : World → Client → Moment → ℤ → Run (World × Client)
  unfolding read_done write_done
  client_cqe_handle w c t res =
      let fcgi = c.fcgi in
      let got = read_done w c t res in
      if fcgi.state == read_cqe
      then got
      else if fcgi.state == write_cqe
      then ok (w, write_done c res)
      else if fcgi.state == close_cqe
      then ok (w, close_done c)
      else ok (w, c)
