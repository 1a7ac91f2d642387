-- ===== src/Response/Head.antt =====
-- `gen_header` of src/write_response.c with the format strings of src/write_response.h and
-- src/config.h: the status line and the headers that every response has.
use simple_http.Base.{
  Bool, length-append, List, arith, ap, true, ◌<◌, false, ℕ, ◌+◌, ◌≡◌, Option, none, some, [], ◌∷◌,
  ◌++◌, Bytes, codes, if◌then◌else◌, length,
}
use simple_http.Printf.{
  snprintf_whole, num, str, format, Printed, snprintf, Plain, format_plain, show_int,
}
use simple_http.Status.{Status}
use simple_http.Status.Table.{Consistent}
use simple_http.Effects.Outcomes.{calm}
use simple_http.Itoa.Decimal.{itoa_base-show_int}
use simple_http.Base.Int.{IsInt}
use simple_http.Effects.{World, done}
use simple_http.Effects.{done, World, M, pure, ◌>>=◌, ◌>>◌, alloc_or_crash, undefined}
use simple_http.Response.{pos, ℤ, KeepAlive, to_base}

-- HEADER_BASE and what follows it in the format string.
abbrev header_base : Bytes → Bytes → Bytes
header_base commit rest =
    codes "HTTP/1.1 %d %s\r\nServer: simpleHttpd-" ++ (commit ++ (codes "\r\n" ++ rest))

abbrev pub header_close : Bytes → Bytes
header_close commit = header_base commit (codes "Connection: close\r\n")

abbrev pub header_keep : Bytes → Bytes
header_keep commit =
    header_base commit (codes "Connection: Keep-Alive\r\nKeep-Alive: timeout=%d, max=%d\r\n")

-- `snprintf`; a format that does not fit its arguments is undefined behaviour.
print : ℕ → Option Bytes → M Printed
print n none = undefined
print n (some full) = pure (snprintf n full)

-- The test behind `calloc` reads `dst`, not `*dst`, so that a failure goes on to the print.
gen_close : Bytes → Status → M Printed
gen_close commit status = do
  alloc_or_crash
  print (length status.p2 + length status.value + length (header_close commit))
      (format (header_close commit) (num status.p1 ∷ str status.value ∷ []))

gen_keep : Bytes → Status → KeepAlive → M Printed
gen_keep commit status ka = do
  timeout ← to_base ka.timeout
  max ← to_base ka.max
  alloc_or_crash
  print
      (length status.p2
        + length status.value
        + (length (header_keep commit) + length timeout + length max))
      (format (header_keep commit)
        (num status.p1 ∷ str status.value ∷ num ka.timeout ∷ num ka.max ∷ []))

-- The text in `*dst` with the count that is returned.
pub gen_header : Bytes → Status → Option KeepAlive → M Printed
gen_header commit status none = undefined
gen_header commit status (some ka) =
    if ka.keep_alive then gen_keep commit status ka else gen_close commit status

-- What a client shall read: the status line, the server's name and the connection's settings.
unfoldable pub connection : KeepAlive → Bytes
connection ka =
    if ka.keep_alive
    then codes "Connection: Keep-Alive\r\nKeep-Alive: timeout="
      ++ (show_int ka.timeout ++ (codes ", max=" ++ (show_int ka.max ++ codes "\r\n")))
    else codes "Connection: close\r\n"

unfoldable pub head : Bytes → Status → KeepAlive → Bytes
unfolding connection
head commit status ka =
    codes "HTTP/1.1 "
    ++ (show_int status.p1
        ++ (codes " "
            ++ (status.value
                ++ (codes "\r\nServer: simpleHttpd-"
                    ++ (commit ++ (codes "\r\n" ++ connection ka))))))

abbrev close : KeepAlive
close = record { keep_alive = false; timeout = pos 0; max = pos 0 }

abbrev keep : ℤ → ℤ → KeepAlive
keep timeout max = record { keep_alive = true; timeout = timeout; max = max }

format-close :
    (commit : Bytes) (status : Status)
    → Plain commit
    → format (header_close commit) (num status.p1 ∷ str status.value ∷ [])
      ≡ some (head commit status close)
unfolding format head
format-close commit status h = rw (format_plain commit (codes "\r\nConnection: close\r\n") [] h)

format-keep :
    (commit : Bytes) (status : Status) (timeout max : ℤ)
    → Plain commit
    → format (header_keep commit) (num status.p1 ∷ str status.value ∷ num timeout ∷ num max ∷ [])
      ≡ some (head commit status (keep timeout max))
unfolding format head
format-keep commit status timeout max h = rw (
    format_plain commit (codes "\r\nConnection: Keep-Alive\r\nKeep-Alive: timeout=%d, max=%d\r\n")
      (num timeout ∷ num max ∷ []) h)

-- A text that is shorter than its block is printed whole.
print_whole :
    (n : ℕ) (text : Bytes) (w : World)
    → length text < n
    → print n (some text) w ≡ done (record { text = text; count = length text }) w
unfolding print
print_whole n text w h = ap (λ (p : Printed). done p w) (snprintf_whole n text h)

close_fits :
    (commit : Bytes) (status : Status)
    → Consistent status
    → length (head commit status close)
      < length status.p2 + length status.value + length (header_close commit)
unfolding head
close_fits commit status (text, _, _, _) = simp (text, length-append) (omega arith)

keep_fits :
    (commit : Bytes) (status : Status) (timeout max : ℤ)
    → Consistent status
    → length (head commit status (keep timeout max))
      < length status.p2
        + length status.value
        + (length (header_keep commit) + length (show_int timeout) + length (show_int max))
unfolding head
keep_fits commit status timeout max (text, _, _, _) = simp (text, length-append) (omega arith)

to_base_calm : (x : ℤ) (w : World) → IsInt x → to_base x w ≡ done (show_int x) w
unfolding to_base
to_base_calm x w h = rw (itoa_base-show_int x h)

gen_header_at :
    (commit : Bytes) (status : Status) (b : Bool) (timeout max : ℤ) (fds : List ℕ) (next : ℕ)
    (input sent : Bytes)
    → Plain commit
    → Consistent status
    → IsInt timeout
    → IsInt max
    → let ka : KeepAlive = record { keep_alive = b; timeout = timeout; max = max } in
      let text = head commit status ka in
      gen_header commit status (some ka) (calm fds next input sent)
      ≡ done (record { text = text; count = length text }) (calm fds next input sent)
unfolding gen_header gen_close gen_keep alloc_or_crash head
gen_header_at commit status false timeout max fds next input sent plain good it im =
    rw (format-close commit status plain)
      (print_whole _ (head commit status close) _ (close_fits commit status good))
gen_header_at commit status true timeout max fds next input sent plain good it im =
    rw
      (
        to_base_calm timeout (calm fds next input sent) it,
        to_base_calm max (calm fds next input sent) im,
        format-keep commit status timeout max plain,
      )
      (print_whole _ (head commit status (keep timeout max)) _
        (keep_fits commit status timeout max good))

-- With a commit that holds no `%`, a consistent status and settings that are `int`s, and with
-- memory, the block that `gen_header` computes is large enough: the text is the status line, the
-- server's name and the connection's settings, never cut, and the count that is returned is its
-- length.
pub gen_header-head :
    (commit : Bytes) (status : Status) (ka : KeepAlive) (fds : List ℕ) (next : ℕ)
    (input sent : Bytes)
    → Plain commit
    → Consistent status
    → IsInt ka.timeout
    → IsInt ka.max
    → gen_header commit status (some ka) (calm fds next input sent)
      ≡ done
          (record { text = head commit status ka; count = length (head commit status ka) })
          (calm fds next input sent)
gen_header-head commit status ka = gen_header_at commit status ka.keep_alive ka.timeout ka.max
