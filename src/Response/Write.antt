-- ===== src/Response/Write.antt =====
-- `write_response` of src/write_response.c: the buffer with the headers, then the payload, in
-- pieces of at most PIPE_BUF bytes. A piece that is taken in part, or not at all, is not sent again:
-- the results of `write` are `size_t`, so that the tests for a negative one never succeed, and the
-- loops go on behind the piece.
pub mod Loop
pub mod Wire
pub mod Limits
use simple_http.Base.{
  ℕ, zero, suc, ◌+◌, ◌-◌, ◌%◌, Bool, true, false, Option, none, some, List, [], ◌∷◌, ◌++◌, Bytes,
  codes, ltb, leb, if◌then◌else◌, length, take, drop, replicate,
}
use simple_http.Base.Int.{ℤ, is_neg}
use simple_http.Printf.{str, format, Printed, snprintf}
use simple_http.Effects.{M, pure, ◌>>=◌, ◌>>◌, undefined, size_max, write}
use simple_http.Response.{or_undefined, Header, Response, default_len, word_mod}
use simple_http.Response.Head.{gen_header}

-- PIPE_BUF of linux/limits.h
abbrev pub pipe_buf : ℕ
pipe_buf = 4096

-- The bytes of the buffer before the new position, behind a print into it.
abbrev pub slot : Printed → Bytes
slot p = p.text ++ replicate (p.count - length p.text) 0

-- A store of `n` bytes into the buffer, at the position `at`.
abbrev pub room : ℕ → ℕ → M (Unit {0})
room at n = if leb (at + n) default_len then pure tt else undefined

abbrev pub header_size : Header → ℕ
header_size h = 5 + length h.name + length h.value

pub print_header : Header → M Printed
print_header h = do
  full ← or_undefined (format (codes "%s: %s\r\n") (str h.name ∷ str h.value ∷ []))
  pure (snprintf (header_size h) full)

-- The loop over `res->headers`: the buffer and the count behind it. A print stores its terminator.
pub put_headers : List Header → Bytes → ℕ → M (Bytes × ℕ)
unfolding print_header or_undefined
put_headers [] buffer total = pure (buffer, total)
put_headers (h ∷ hs) buffer total = do
  p ← print_header h
  room (length buffer) (length p.text + 1)
  put_headers hs (buffer ++ slot p) ((total + p.count) % word_mod)

-- Both loops over `write`. The fuel is at least the number of bytes.
pub send : ℕ → ℤ → Bytes → ℕ → M ℕ
send f fd [] total = pure total
send zero fd (b ∷ bs) total = undefined
send (suc f) fd (b ∷ bs) total = do
  written ← write fd (take pipe_buf (b ∷ bs))
  send f fd (drop pipe_buf (b ∷ bs)) ((total + written) % word_mod)

-- The first `len` bytes of the payload's block.
pub send_payload : Response → Option Bytes → ℕ → M ℕ
send_payload res none total = pure total
send_payload res (some block) total = do
  written ← write res.cfd (codes "\r\n")
  if leb res.len (length block)
      then send (length block) res.cfd (take res.len block) ((total + written) % word_mod)
      else undefined

-- `strncpy` of the text into the buffer.
pub put_head : Printed → M Bytes
put_head p = do room 0 p.count; pure (slot p)

pub write_open : Bytes → Response → M (ℕ × Response)
write_open commit res = do
  p ← gen_header commit res.status res.keep_alive
  head ← put_head p
  (buffer, total) ← put_headers res.headers head 0
  headed ← send (length buffer) res.cfd buffer total
  count ← send_payload res res.payload headed
  pure (count, record res { buffer = buffer })

-- `write_response(res)` of a response that is not NULL: the count that it returns.
pub write_response : Bytes → Response → M (ℕ × Response)
write_response commit res = if is_neg res.cfd then pure (size_max, res) else write_open commit res
