-- ===== src/Response/Write/Limits.antt =====
-- `write_response` where a write is short or fails, and where the headers do not fit the buffer.
use simple_http.Base.{
  append-nil, ℕ, suc, ◌+◌, ◌%◌, ◌≤◌, ◌<◌, ◌≡◌, ap, ◌∙◌, true, false, List, [], ◌∷◌, ◌++◌, Bytes,
  length, take, drop, length-append, length-drop, arith, leb, ltb, Bool-cases, inl, inr,
}
use simple_http.Base.Int.{ℤ}
use simple_http.Effects.{World, done, fault, is_open, size_max, write, WriteResult, wrote, failed}
use simple_http.Effects.Outcomes.{calm}
use simple_http.Response.{Header, default_len, word_mod}
use simple_http.Response.Write.{pipe_buf, put_headers, room, send}
use simple_http.Response.Write.Loop.{
  send-calm, header_line, header_lines, print_header_whole, slot_whole, room_ok,
}

-- What a write takes of a piece, and what the code makes of its result.
abbrev pub taken : WriteResult → Bytes → Bytes
taken (wrote n) piece = take n piece
taken failed piece = []

abbrev pub counted : WriteResult → Bytes → ℕ
counted (wrote n) piece = length (take n piece)
counted failed piece = size_max

abbrev pub facing : WriteResult → World → World
facing r w = record w { writes = r ∷ [] }

write-once :
    (r : WriteResult) (fd : ℤ) (piece : Bytes) (fds : List ℕ) (next : ℕ) (input sent : Bytes)
    → is_open fd fds ≡ true
    → write fd piece (facing r (calm fds next input sent))
      ≡ done (counted r piece) (calm fds next input (sent ++ taken r piece))
unfolding write
write-once (wrote n) fd piece fds next input sent o = rw o
write-once failed fd piece fds next input sent o = rw (o, append-nil)

-- Where the first write on an open descriptor takes a part of its piece or fails, and the others
-- are complete, the loop loses the rest of that piece, or all of it, sends what stands behind it
-- and reports no error: a failed write counts as 2^64 - 1 bytes. A fuel of the number of bytes is
-- enough.
pub send_short :
    (r : WriteResult) (f : ℕ) (fd : ℤ) (b : ℕ) (bs : Bytes) (total : ℕ) (fds : List ℕ) (next : ℕ)
    (input sent : Bytes)
    → is_open fd fds ≡ true
    → length bs ≤ f
    → let piece = take pipe_buf (b ∷ bs) in
      let rest = drop pipe_buf (b ∷ bs) in
      send (suc f) fd (b ∷ bs) total (facing r (calm fds next input sent))
      ≡ done
          ((total + counted r piece + length rest) % word_mod)
          (calm fds next input ((sent ++ taken r piece) ++ rest))
unfolding send
send_short r f fd b bs total fds next input sent o le =
    let piece = take pipe_buf (b ∷ bs) in
    let rest = drop pipe_buf (b ∷ bs) in
    let wrapped : ((total + counted r piece) % word_mod + length rest) % word_mod
        ≡ (total + counted r piece + length rest) % word_mod =
      omega arith in
    rw (write-once r fd piece fds next input sent o) (
      send-calm f fd rest ((total + counted r piece) % word_mod) fds next input
        (sent ++ taken r piece) o (omega (arith, length-drop pipe_buf (b ∷ bs))) (omega arith)
      ∙ ap (λ (n : ℕ). done n (calm fds next input ((sent ++ taken r piece) ++ rest))) wrapped)

room_over : (at n : ℕ) (w : World) → default_len < at + n → room at n w ≡ fault
room_over at n w h = let over : leb (at + n) default_len ≡ false = ground arith in rw over

-- Headers that do not fit the buffer of one MiB behind its text, with a terminator, are stored
-- outside it.
pub put_headers-overflow :
    (hs : List Header) (buffer : Bytes) (total : ℕ) (w : World)
    → length buffer < default_len
    → default_len ≤ length buffer + length (header_lines hs)
    → put_headers hs buffer total w ≡ fault
unfolding put_headers
put_headers-overflow [] buffer total w fits over = absurd (omega arith)
put_headers-overflow (h ∷ hs) buffer total w fits over =
    let line = header_line h in
    let both : length (line ++ header_lines hs) ≡ length line + length (header_lines hs) =
      length-append line (header_lines hs) in
    elim (Bool-cases (ltb (length buffer + length line) default_len)) [
      | inl in_room ↦
          rw
            (
              print_header_whole h w,
              room_ok (length buffer) (length line + 1) w (ground arith),
              slot_whole line,
            )
            (put_headers-overflow hs (buffer ++ line) ((total + length line) % word_mod) w
              (ground (arith, length-append buffer line))
              (omega (arith, both, length-append buffer line)))
      | inr no_room ↦
          rw (print_header_whole h w, room_over (length buffer) (length line + 1) w (ground arith))
    ]
