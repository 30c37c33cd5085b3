-- ===== src/Fastcgi/Parse/Bounds.antt =====
-- The parser stays inside the bytes that were received, ends, and leaves room for the next read.
use compuguessr.Base.{
  ℕ, zero, suc, ◌+◌, ◌-◌, ◌^◌, ◌≤◌, ◌<◌, ◌≡◌, refl, ◌⊎◌, inl, inr, Bool, true, false, List, Run, ok,
  fail, endless, out_of_bounds, Returns, enough, length, drop, length-drop, get_or-drop, arith,
  ◌==◌, ltb, if◌then◌else◌, Bool-cases,
}
use native.Mathlib.Decide.{dec_lt}
use compuguessr.Base.Words.{sub_u32, u32}
use compuguessr.Request.{Request, IsValid}
use compuguessr.Fastcgi.Record.{
  Header, header_size, bswap16, read_header, begin_request_type, params_type, stdin_type,
  handle_begin_request-IsValid, handle_begin_request-overruns, handle_stdin-IsValid,
}
use compuguessr.Fastcgi.Params.{handle_params}
use compuguessr.Fastcgi.Params.Lengths.{IsBytes}
use compuguessr.Fastcgi.Params.Safe.{params_stays_inside}
use compuguessr.Fastcgi.Parse.{
  Buffer, Parsed, total_payload, dispatch, clear_type, parse_payload, parse_from, parse,
}

-- The largest record behind its header: 65535 bytes and 255 of padding.
abbrev pub record_max_size : ℕ
record_max_size = 65790

pub record IsBuffer (m : Buffer) : Type 0 where
  pub sized : length m.buf ≡ m.len
  pub filled : m.valid ≤ m.len
  pub small : m.len < 2 ^ 31
  pub bytes : IsBytes m.buf

-- What a call that ends leaves.
pub record IsParsed (m : Buffer) (pos : ℕ) (r : Parsed) : Type 0 where
  pub later : pos ≤ r.pos
  pub inside : r.pos ≤ m.valid
  pub req_valid : IsValid r.req
  pub padding : r.hdr.padding_len < 256
  pub room : r.ready ≡ false → m.valid - r.pos < record_max_size
  pub complete : r.ready ≡ true → r.hdr.type ≡ 0

-- The call ends so, or the parser of parameters does not end, or the flags of a BEGIN_REQUEST are
-- read behind the buffer, which happens only if `Over`.
abbrev pub Ends : {A : Type 0} → Type 0 → (A → Type 0) → Run A → Type 0
Ends Over P r = (r ≡ fail endless) ⊎ (Over × (r ≡ fail out_of_bounds)) ⊎ Returns r P

handle_params-Ends :
    (req : Request) (payload : List ℕ) (content_len : ℕ)
    → IsBytes payload
    → content_len ≤ length payload
    → content_len < 2 ^ 16
    → IsValid req
    → let r = handle_params req payload content_len in (r ≡ fail endless) ⊎ Returns r IsValid
unfolding handle_params
handle_params-Ends req payload n bytes fits small v =
    elim (params_stays_inside (n + 1) req payload n 0 bytes fits small v) [
      | inl e ↦ inl (rw (e, enough) refl)
      | inr (req', e, v') ↦ inr (req', rw (e, enough) refl, v')
    ]

dispatch-Ends :
    (req : Request) (hdr : Header) (payload : List ℕ)
    → IsBytes payload
    → bswap16 hdr.content_len ≤ length payload
    → IsValid req
    → Ends (length payload < 3) (λ r. IsValid r.0) (dispatch req hdr payload)
unfolding dispatch
dispatch-Ends req hdr payload bytes fits v =
    let n = bswap16 hdr.content_len in
    elim (Bool-cases (hdr.type == begin_request_type)) [
      | inl is_begin ↦ elim (dec_lt (length payload) 3) [
        | yes short ↦
            rw (is_begin, handle_begin_request-overruns req hdr payload short)
              (inr (inl (short, refl)))
        | no three ↦
            let (req', e, v') =
              handle_begin_request-IsValid req hdr payload v (omega (arith, three)) in
            rw (is_begin, e) (inr (inr (_, refl, v')))
      ]
      | inr not_begin ↦ elim (Bool-cases (hdr.type == params_type)) [
        | inl is_params ↦
            rw (not_begin, is_params)
              (elim (handle_params-Ends req payload n bytes fits (omega arith) v) [
                | inl e ↦ rw e (inl refl)
                | inr (req', e, v') ↦ rw e (inr (inr (_, refl, v')))
              ])
        | inr not_params ↦ elim (Bool-cases (hdr.type == stdin_type)) [
          | inl is_stdin ↦
              rw (not_begin, not_params, is_stdin)
                (inr (inr (_, refl, handle_stdin-IsValid req n payload fits (omega arith) v)))
          | inr not_stdin ↦ rw (not_begin, not_params, not_stdin) (inr (inr (_, refl, v)))
        ]
      ]
    ]

module _ (m : Buffer) (b : IsBuffer m) where
  abbrev Over : Type 0
  Over = m.len < m.valid + 3

  IsBytes-drop : (pos : ℕ) → IsBytes (drop pos m.buf)
  IsBytes-drop pos i = rw (get_or-drop pos m.buf i 0) (b.bytes (pos + i))

  -- A record's payload: the loop is asked to go on only behind it, with no header saved.
  parse_payload-Ends :
      (req : Request) (hdr : Header) (loop : ℕ → Request → Header → Run Parsed) (start pos : ℕ)
      → start ≤ pos
      → pos ≤ m.valid
      → IsValid req
      → hdr.padding_len < 256
      → ((req' : Request)
          → IsValid req'
          → pos + total_payload hdr ≤ m.valid
          → Ends Over (IsParsed m start) (loop (pos + total_payload hdr) req' (clear_type hdr)))
      → Ends Over (IsParsed m start) (parse_payload m req hdr loop pos)
  unfolding parse_payload
  parse_payload-Ends req hdr loop start pos from inside v pad next =
      elim (Bool-cases (ltb (sub_u32 m.valid pos) (total_payload hdr))) [
        | inl short ↦ rw short (
            inr (
              inr (
                _,
                refl,
                record {
                  later = from;
                  inside = inside;
                  req_valid = v;
                  padding = pad;
                  room = λ z. ground (arith, b.filled, b.small);
                  complete = λ e. absurd (cc);
                },
              )))
        | inr whole ↦
            let fits : pos + total_payload hdr ≤ m.valid = ground (arith, b.filled, b.small) in
            let sized : bswap16 hdr.content_len ≤ length (drop pos m.buf) =
              omega (arith, length-drop pos m.buf, b.sized, b.filled) in
            rw whole (elim (dispatch-Ends req hdr (drop pos m.buf) (IsBytes-drop pos) sized v) [
              | inl e ↦ rw e (inl refl)
              | inr (inl (behind, e)) ↦
                  rw e (inr (inl (omega (arith, length-drop pos m.buf, b.sized), refl)))
              | inr (inr (r, e, v')) ↦
                  let exact : u32 (pos + total_payload hdr) ≡ pos + total_payload hdr =
                    omega (arith, b.filled, b.small) in
                  rw (e, exact) (after r v' fits)
            ])
      ]
    where
      after :
          (r : Request × Bool)
          → IsValid r.0
          → pos + total_payload hdr ≤ m.valid
          → Ends Over (IsParsed m start) (
              if r.1
              then ok (record {
                ready = true;
                pos = pos + total_payload hdr;
                req = r.0;
                hdr = clear_type hdr;
              })
              else loop (pos + total_payload hdr) r.0 (clear_type hdr))
      after (req', true) v' fits = inr (
          inr (
            _,
            refl,
            record {
              later = omega arith;
              inside = fits;
              req_valid = v';
              padding = pad;
              room = λ e. absurd (cc);
              complete = λ e. refl;
            },
          ))
      after (req', false) v' fits = next req' v' fits

  abbrev rounds : ℕ → Header → ℕ
  rounds pos hdr = m.valid - pos + (if hdr.type == 0 then 1 else 2)

  IsParsed-later :
      {start pos : ℕ} {r : Run Parsed}
      → start ≤ pos
      → Ends Over (IsParsed m pos) r
      → Ends Over (IsParsed m start) r
  IsParsed-later h (inl e) = inl e
  IsParsed-later h (inr (inl o)) = inr (inl o)
  IsParsed-later h (inr (inr (r, e, p))) = inr (
      inr (
        r,
        e,
        record {
          later = omega (arith, p.later);
          inside = p.inside;
          req_valid = p.req_valid;
          padding = p.padding;
          room = p.room;
          complete = p.complete;
        },
      ))

  parse_from-Ends :
      (fuel pos : ℕ) (req : Request) (hdr : Header)
      → rounds pos hdr ≤ fuel
      → pos ≤ m.valid
      → IsValid req
      → hdr.padding_len < 256
      → Ends Over (IsParsed m pos) (parse_from fuel m pos req hdr)
  unfolding parse_from
  parse_from-Ends zero pos req hdr h inside v pad = absurd (ground arith)
  parse_from-Ends (suc fuel) pos req hdr h inside v pad =
      let stop : (m.valid - pos < record_max_size)
          → IsParsed m pos (record { ready = false; pos = pos; req = req; hdr = hdr }) =
        λ few. record {
          later = omega arith;
          inside = inside;
          req_valid = v;
          padding = pad;
          room = λ e. few;
          complete = λ e. absurd (cc);
        } in
      elim (Bool-cases (ltb pos m.valid)) [
        | inr done ↦ rw done (inr (inr (_, refl, stop (ground arith))))
        | inl more ↦ elim (Bool-cases (hdr.type == 0)) [
          | inr saved ↦
              rw (more, saved)
                (parse_payload-Ends req hdr _ pos pos (omega arith) inside v pad (λ req' v' fits.
                  IsParsed-later (omega arith)
                    (parse_from-Ends fuel _ req' (clear_type hdr) (ground arith) fits v' pad)))
          | inl fresh ↦ elim (Bool-cases (ltb (sub_u32 m.valid pos) header_size)) [
            | inl few ↦
                rw (more, fresh, few)
                  (inr (inr (_, refl, stop (ground (arith, b.filled, b.small)))))
            | inr room ↦
                let next = read_header (drop pos m.buf) in
                let eight : pos + header_size ≤ m.valid = ground (arith, b.filled, b.small) in
                let exact : u32 (pos + header_size) ≡ pos + header_size =
                  omega (arith, b.filled, b.small) in
                rw (more, fresh, room, exact)
                  (parse_payload-Ends req next _ pos (pos + header_size) (omega arith) eight v
                    (IsBytes-drop pos 6)
                    (λ req' v' fits. IsParsed-later (omega arith) (
                      parse_from-Ends fuel _ req' (clear_type next) (ground arith) fits v'
                        (IsBytes-drop pos 6))))
          ]
        ]
      ]

pub parse-Ends :
    (m : Buffer) (req : Request) (hdr : Header)
    → IsBuffer m
    → m.pos ≤ m.valid
    → IsValid req
    → hdr.padding_len < 256
    → Ends (m.len < m.valid + 3) (IsParsed m m.pos) (parse m req hdr)
unfolding parse
parse-Ends m req hdr b inside v pad =
    parse_from-Ends m b (m.valid + 2) m.pos req hdr (ground arith) inside v pad
