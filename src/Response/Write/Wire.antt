-- ===== src/Response/Write/Wire.antt =====
-- What a client reads of a response, and what `write_response` returns, where every write is
-- complete.
use simple_http.Base.{
  ℕ, ◌+◌, ◌%◌, ◌<◌, ◌≡◌, refl, ap, ◌∙◌, true, false, Option, none, some, List, [], ◌++◌, Bytes,
  codes, length, append_assoc, append-nil, arith, le→leb, take_all,
}
use simple_http.Base.Int.{ℤ, pos, negsuc, is_neg, IsInt}
use simple_http.Printf.{Plain}
use simple_http.Status.Table.{Consistent}
use simple_http.Effects.{World, done, is_open}
use simple_http.Effects.Outcomes.{calm, write-calm}
use simple_http.Response.{KeepAlive, Response, default_len, word_mod}
use simple_http.Response.Head.{head, gen_header, gen_header-head}
use simple_http.Response.Write.{put_head, send_payload, write_open, write_response}
use simple_http.Response.Write.Loop.{
  send-calm, regroup, slot_whole, room_ok, put_headers_calm, header_lines,
}

-- The empty line that ends the headers, with the payload behind it. A response that has no payload
-- ends with its last header, with no empty line.
abbrev pub body : Option Bytes → Bytes
body none = []
body (some p) = codes "\r\n" ++ p

-- `len` is the length of the payload's block.
abbrev pub Sized : Option Bytes → ℕ → Type 0
Sized none len = Unit {0}
Sized (some p) len = len ≡ length p

abbrev pub wire : Bytes → Response → KeepAlive → Bytes
wire commit res ka = head commit res.status ka ++ (header_lines res.headers ++ body res.payload)

-- The connection is open, the settings are there, and the headers fit the buffer.
pub record Ready (commit : Bytes) (res : Response) (ka : KeepAlive) (fds : List ℕ) : Type 0 where
  pub live : res.keep_alive ≡ some ka
  pub opened : is_open res.cfd fds ≡ true
  pub plain : Plain commit
  pub good : Consistent res.status
  pub timeout_int : IsInt ka.timeout
  pub max_int : IsInt ka.max
  pub fits : length (head commit res.status ka) + length (header_lines res.headers) < default_len
  pub sized : Sized res.payload res.len

open_not_neg : (fd : ℤ) (fds : List ℕ) → is_open fd fds ≡ true → is_neg fd ≡ false
open_not_neg (pos n) fds h = refl
open_not_neg (negsuc n) fds h = cc

send_payload-calm :
    (res : Response) (payload : Option Bytes) (total : ℕ) (fds : List ℕ) (next : ℕ)
    (input sent : Bytes)
    → is_open res.cfd fds ≡ true
    → Sized payload res.len
    → total < word_mod
    → send_payload res payload total (calm fds next input sent)
      ≡ done
          ((total + length (body payload)) % word_mod)
          (calm fds next input (sent ++ body payload))
unfolding send_payload
send_payload-calm res none total fds next input sent o sz small =
    let same : (total + 0) % word_mod ≡ total = omega arith in rw (same, append-nil)
send_payload-calm res (some p) total fds next input sent o sz small =
    rw
      (
        write-calm res.cfd (codes "\r\n") fds next input sent o,
        sz,
        le→leb (length p) (length p) (omega arith),
        take_all (length p) p (omega arith),
      )
      (send-calm (length p) res.cfd p ((total + 2) % word_mod) fds next input (sent ++ codes "\r\n")
          o (omega arith) (omega arith)
        ∙ regroup fds next input sent total (codes "\r\n") p (codes "\r\n" ++ p) refl)

put_head_calm :
    (text : Bytes) (w : World)
    → length text < default_len
    → put_head (record { text = text; count = length text }) w ≡ done text w
unfolding put_head
put_head_calm text w h = rw (room_ok 0 (length text) w (omega arith), slot_whole text)

-- The count that `write_response` returns: the lines of `headers` are counted when they are laid
-- into the buffer and once more when it is sent.
abbrev pub returned : Bytes → Response → KeepAlive → ℕ
returned commit res ka =
    (length (header_lines res.headers) + length (wire commit res ka)) % word_mod

wrap_left : (a b : ℕ) → (a % word_mod + b) % word_mod ≡ (a + b) % word_mod
wrap_left a b = omega arith

module _ (commit : Bytes) (res : Response) (ka : KeepAlive) (fds : List ℕ) (next : ℕ)
    (input sent : Bytes) where
  abbrev buffered : Bytes
  buffered = head commit res.status ka ++ header_lines res.headers

  headed :
      Ready commit res ka fds
      → gen_header commit res.status res.keep_alive (calm fds next input sent)
        ≡ done
            (record {
              text = head commit res.status ka;
              count = length (head commit res.status ka);
            })
            (calm fds next input sent)
  headed r = rw r.live (
      gen_header-head commit res.status ka fds next input sent r.plain r.good r.timeout_int
        r.max_int)

  sent_all :
      Ready commit res ka fds
      → send_payload res res.payload
          ((length (header_lines res.headers) % word_mod + length buffered) % word_mod)
          (calm fds next input (sent ++ buffered))
        ≡ done (returned commit res ka) (calm fds next input (sent ++ wire commit res ka))
  sent_all r =
      send_payload-calm res res.payload _ fds next input (sent ++ buffered) r.opened r.sized
        (omega arith)
      ∙ regroup fds next input sent (length (header_lines res.headers) % word_mod) buffered
          (body res.payload) (wire commit res ka)
          (append_assoc (head commit res.status ka) (header_lines res.headers) (body res.payload))
      ∙ ap (λ (n : ℕ). done n (calm fds next input (sent ++ wire commit res ka)))
          (wrap_left (length (header_lines res.headers)) (length (wire commit res ka)))

  -- A response that is ready, on a connection that takes every write whole, is sent as its status
  -- line, the fixed headers, its own headers, and, where there is a payload, an empty line and the
  -- payload; nothing else is sent. The count that is returned is the bytes sent with the own
  -- headers counted twice, modulo 2^64.
  pub write_response-wire :
      Ready commit res ka fds
      → write_response commit res (calm fds next input sent)
        ≡ done
            (returned commit res ka, record res { buffer = buffered })
            (calm fds next input (sent ++ wire commit res ka))
  unfolding write_response write_open
  write_response-wire r = rw (
    open_not_neg res.cfd fds r.opened,
    headed r,
    put_head_calm (head commit res.status ka) (calm fds next input sent) head_fits,
    put_headers_calm res.headers (head commit res.status ka) 0 (calm fds next input sent) r.fits
        (omega arith),
    from_zero,
    send-calm (length buffered) res.cfd buffered (length (header_lines res.headers) % word_mod) fds
        next input sent r.opened (omega arith) (omega arith),
    sent_all r,
  )
    where
      head_fits : length (head commit res.status ka) < default_len
      head_fits = omega (arith, r.fits)

      from_zero :
          (0 + length (header_lines res.headers)) % word_mod
          ≡ length (header_lines res.headers) % word_mod
      from_zero = omega arith
