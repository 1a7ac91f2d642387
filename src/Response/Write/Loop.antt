-- ===== src/Response/Write/Loop.antt =====
-- The loops of `write_response` where every write is complete.
use simple_http.Base.{
  ℕ, zero, suc, ◌+◌, ◌-◌, ◌%◌, ◌≤◌, ◌<◌, ◌≡◌, ap, ◌∙◌, true, List, [], ◌∷◌, ◌++◌, Bytes, codes,
  length, take, drop, length-append, length-drop, take-append-drop, append_assoc, append-nil, arith,
  le→leb,
}
use simple_http.Base.Int.{ℤ}
use simple_http.Printf.{format, Printed, snprintf_whole}
use simple_http.Effects.{World, done, is_open}
use simple_http.Effects.Outcomes.{calm, write-calm}
use simple_http.Response.{or_undefined, Header, default_len, word_mod}
use simple_http.Response.Write.{slot, room, header_size, pipe_buf, put_headers, print_header, send}

pub next_total : (t n m : ℕ) → ((t + n) % word_mod + m) % word_mod ≡ (t + (n + m)) % word_mod
next_total t n m = omega arith

module _ (fds : List ℕ) (next : ℕ) (input sent : Bytes) where
  pub regroup :
      (t : ℕ) (xs ys zs : Bytes)
      → xs ++ ys ≡ zs
      → done
          (((t + length xs) % word_mod + length ys) % word_mod)
          (calm fds next input ((sent ++ xs) ++ ys))
        ≡ done ((t + length zs) % word_mod) (calm fds next input (sent ++ zs))
  regroup t xs ys zs h =
      rw (← h, length-append xs ys, append_assoc sent xs ys)
        (ap (λ (n : ℕ). done n (calm fds next input (sent ++ (xs ++ ys))))
          (next_total t (length xs) (length ys)))

-- Where every write is complete on an open descriptor, the loop that writes pieces of at most
-- PIPE_BUF bytes sends every byte once, in order, and counts it, modulo 2^64; a fuel of the number
-- of bytes is enough.
pub send-calm :
    (f : ℕ) (fd : ℤ) (bytes : Bytes) (total : ℕ) (fds : List ℕ) (next : ℕ) (input sent : Bytes)
    → is_open fd fds ≡ true
    → length bytes ≤ f
    → total < word_mod
    → send f fd bytes total (calm fds next input sent)
      ≡ done ((total + length bytes) % word_mod) (calm fds next input (sent ++ bytes))
unfolding send
send-calm f fd [] total fds next input sent o le small =
    let same : (total + 0) % word_mod ≡ total = omega arith in rw (same, append-nil)
send-calm zero fd (b ∷ bs) total fds next input sent o le small = absurd (omega arith)
send-calm (suc f) fd (b ∷ bs) total fds next input sent o le small =
    let piece = take pipe_buf (b ∷ bs) in
    let rest = drop pipe_buf (b ∷ bs) in
    rw (write-calm fd piece fds next input sent o) (
      send-calm f fd rest ((total + length piece) % word_mod) fds next input (sent ++ piece) o
        (omega (arith, length-drop pipe_buf (b ∷ bs))) (omega arith)
      ∙ regroup fds next input sent total piece rest (b ∷ bs) (take-append-drop pipe_buf (b ∷ bs)))

-- `Name: value` and the line's end.
abbrev pub header_line : Header → Bytes
header_line h = h.name ++ (codes ": " ++ (h.value ++ codes "\r\n"))

abbrev pub header_lines : List Header → Bytes
header_lines [] = []
header_lines (h ∷ hs) = header_line h ++ header_lines hs

-- A header is printed whole, into a block with room for its terminator.
pub print_header_whole :
    (h : Header) (w : World)
    → print_header h w ≡ done (record { text = header_line h; count = length (header_line h) }) w
unfolding print_header or_undefined format
print_header_whole h w =
    ap (λ (p : Printed). done p w)
      (snprintf_whole (header_size h) (header_line h) (simp length-append (omega arith)))

pub slot_whole : (s : Bytes) → slot (record { text = s; count = length s }) ≡ s
slot_whole s = let none_left : length s - length s ≡ 0 = omega arith in rw (none_left, append-nil)

pub room_ok : (at n : ℕ) (w : World) → at + n ≤ default_len → room at n w ≡ done tt w
room_ok at n w h = rw (le→leb (at + n) default_len h)

-- Headers that fit the buffer behind its text, with a terminator, are laid into it whole, one
-- behind the other, and counted, modulo 2^64; nothing is stored outside the buffer.
pub put_headers_calm :
    (hs : List Header) (buffer : Bytes) (total : ℕ) (w : World)
    → length buffer + length (header_lines hs) < default_len
    → total < word_mod
    → put_headers hs buffer total w
      ≡ done (buffer ++ header_lines hs, (total + length (header_lines hs)) % word_mod) w
unfolding put_headers
put_headers_calm [] buffer total w fits small =
    let same : (total + 0) % word_mod ≡ total = omega arith in rw (same, append-nil)
put_headers_calm (h ∷ hs) buffer total w fits small =
    let line = header_line h in
    let lines = header_lines hs in
    let both : length (line ++ lines) ≡ length line + length lines = length-append line lines in
    rw
      (
        print_header_whole h w,
        room_ok (length buffer) (length line + 1) w (omega arith),
        slot_whole line,
      )
      (put_headers_calm hs (buffer ++ line) ((total + length line) % word_mod) w
          (omega (arith, length-append buffer line)) (omega arith)
        ∙ rw (append_assoc buffer line lines, both)
            (ap (λ (n : ℕ). let r : Bytes × ℕ = (buffer ++ (line ++ lines), n) in done r w)
              (next_total total (length line) (length lines))))
