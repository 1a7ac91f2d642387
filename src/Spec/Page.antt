-- ===== src/Spec/Page.antt =====
-- The page that `sr` sends for a status.
use simple_http.Base.{
  ◌∙◌, Option, none, ℕ, ◌+◌, ◌-◌, ◌<◌, ◌≡◌, refl, some, List, [], ◌∷◌, ◌++◌, Bytes, codes, length,
  length-append, append_assoc, arith, take_all,
}
use simple_http.Base.Int.{IsInt, ℤ, to_int, to_int-IsInt}
use simple_http.Printf.{num, str, format, show_int, snprintf_whole}
use simple_http.Effects.{alloc, World, done}
use simple_http.Effects.Outcomes.{calm}
use simple_http.System.{System}
use simple_http.Response.{set_status, KeepAlive, Response}
use simple_http.Response.Payload.{
  add_header-calm, to_base_show, set_payload-calm, type_header, length_header,
}
use simple_http.Response.Write.{write_response}
use simple_http.Response.Write.Wire.{write_response-wire, wire, returned, Ready}
use simple_http.Spec.{send_page, by_mode, sr, SpecResponse, payload_fmt, page_block, send_text}

-- The page for a status and a description.
unfoldable pub html : ℤ → Bytes → Bytes
html status text =
    codes "<html><head></head><body><h1>"
    ++ (show_int status ++ (codes "</h1><p>" ++ (text ++ codes "</p></body></html>")))

format_page :
    (status : ℤ) (text : Bytes)
    → format payload_fmt (num status ∷ str text ∷ []) ≡ some (html status text)
unfolding format html
format_page status text = refl

-- `sr` computes four bytes too many, for the two conversions of the format, and sends the block
-- with its zeros.
abbrev pub padded : ℤ → Bytes → Bytes
padded status text = html status text ++ 0 ∷ 0 ∷ 0 ∷ 0 ∷ []

page_block-padded :
    (status : ℤ) (text : Bytes) (w : World)
    → page_block
        (length payload_fmt + length text + length (show_int status))
        (format payload_fmt (num status ∷ str text ∷ []))
        w
      ≡ done (padded status text) w
unfolding page_block
page_block-padded status text w =
    rw (format_page status text, snprintf_whole len (html status text) short, four_more)
  where
    len : ℕ
    len = length payload_fmt + length text + length (show_int status)

    size : length (html status text) + 4 ≡ len
    size = unfold html in simp length-append (omega arith)

    short : length (html status text) < len
    short = omega (arith, size)

    four_more : len - length (html status text) ≡ 4
    four_more = omega (arith, size)

-- A response with a payload and its two headers.
abbrev pub loaded : Response → Bytes → Response
loaded res block = record res {
  headers = res.headers ++ type_header (codes "text/html") ∷ length_header (length block) ∷ [];
  payload = some block;
  len = length block;
}

send_text-calm :
    (sys : System) (res : Response) (block : Bytes) (fds : List ℕ) (next : ℕ) (input sent : Bytes)
    → send_text sys res block (length block) (calm fds next input sent)
      ≡ write_response sys.commit (loaded res block) (calm fds next input sent)
unfolding send_text
send_text-calm sys res block fds next input sent = rw (
  set_payload-calm res block (length block) fds next input sent (omega arith),
  take_all (length block) block (omega arith),
  add_header-calm stored (codes "Content-Type") (codes "text/html") fds next input sent,
  to_base_show (to_int (length block)) (calm fds next input sent) (to_int-IsInt (length block)),
  add_header-calm typed (codes "Content-Length") (show_int (to_int (length block))) fds next input
      sent,
  append_assoc res.headers (type_header (codes "text/html") ∷ [])
      (length_header (length block) ∷ []),
)
  where
    stored : Response
    stored = record res { payload = some block; len = length block }

    typed : Response
    typed = record stored { headers = res.headers ++ type_header (codes "text/html") ∷ [] }

-- The response that `sr` sends for a status and a description.
abbrev pub page_response : Response → SpecResponse → Response
page_response res spec = loaded (set_status res spec.status) (padded spec.status spec.text)

by_mode_page :
    (sys : System) (res : Response) (spec : SpecResponse) (mode : Option Bytes) (fds : List ℕ)
    (next : ℕ) (input sent : Bytes)
    → IsInt spec.status
    → mode ≡ none
    → by_mode sys res spec mode (calm fds next input sent)
      ≡ write_response sys.commit
          (loaded res (padded spec.status spec.text))
          (calm fds next input sent)
unfolding by_mode send_page alloc
by_mode_page sys res spec mode fds next input sent small e =
    rw
      (
        e,
        by_mode,
        to_base_show spec.status (calm fds next input sent) small,
        page_block-padded spec.status spec.text (calm fds next input sent),
        ← size,
      )
      (send_text-calm sys res (padded spec.status spec.text) fds next input sent)
  where
    size :
        length (padded spec.status spec.text)
        ≡ length payload_fmt + length spec.text + length (show_int spec.status)
    size = unfold html in simp length-append (omega arith)

-- On a calm connection that can take the page, `sr` of an `int` status with a description and no
-- mode sends the status line of the status, or of 200 where the table lacks it, with the
-- response's headers, then an HTML page with the status and the description, as many bytes as its
-- Content-Length says; the last four of them are zeros.
pub sr-page :
    (sys : System) (res : Response) (spec : SpecResponse) (ka : KeepAlive) (fds : List ℕ) (next : ℕ)
    (input sent : Bytes)
    → IsInt spec.status
    → spec.mode ≡ none
    → Ready sys.commit (page_response res spec) ka fds
    → (buffer : Bytes) × (sr sys res spec (calm fds next input sent)
        ≡ done
            (
              returned sys.commit (page_response res spec) ka,
              record (page_response res spec) { buffer = buffer },
            )
            (calm fds next input (sent ++ wire sys.commit (page_response res spec) ka)))
unfolding sr
sr-page sys res spec ka fds next input sent small no_mode r = (
  _,
  by_mode_page sys (set_status res spec.status) spec spec.mode fds next input sent small no_mode
      ∙ write_response-wire sys.commit (page_response res spec) ka fds next input sent r,
)
