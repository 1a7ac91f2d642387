-- ===== src/Spec.antt =====
-- `sr` of src/spec.h: an error page, or a file, as the whole response.
pub mod Page
use simple_http.Base.{
  Bool, ℕ, ◌+◌, ◌-◌, Bool, true, false, Option, none, some, List, [], ◌∷◌, ◌++◌, Bytes, codes,
  length, replicate,
}
use simple_http.Base.Int.{ℤ, to_int}
use simple_http.Printf.{num, str, format, Printed, snprintf}
use simple_http.Effects.{M, pure, ◌>>=◌, ◌>>◌, undefined, alloc}
use simple_http.System.{System}
use simple_http.Response.{Response, set_status, set_payload, add_header, to_base}
use simple_http.Response.Write.{write_response, slot}

abbrev pub payload_fmt : Bytes
payload_fmt = codes "<html><head></head><body><h1>%d</h1><p>%s</p></body></html>"

-- `spec_response_t`; the text is the file's name where there is a mode.
pub record SpecResponse : Type 0 where
  pub status : ℤ
  pub text : Bytes
  pub mode : Option Bytes

-- The block of `calloc(len)` behind `snprintf(payload, len, …)`.
abbrev pub filled : ℕ → Printed → Bytes
filled len p = p.text ++ replicate (len - length p.text) 0

pub page_block : ℕ → Option Bytes → M Bytes
page_block len none = undefined
page_block len (some full) = pure (filled len (snprintf len full))

-- The payload with its two headers, then the write.
pub send_text : System → Response → Bytes → ℕ → M (ℕ × Response)
send_text sys res block len = do
  (_, loaded) ← set_payload res block len
  typed ← add_header loaded (codes "Content-Type") (codes "text/html")
  digits ← to_base (to_int len)
  sized ← add_header typed (codes "Content-Length") digits
  write_response sys.commit sized

-- Without memory for the page nothing is sent.
pub send_page : System → Response → SpecResponse → Bytes → Bool → M (ℕ × Response)
send_page sys res spec code false = pure (0, res)
send_page sys res spec code true =
    let len = length payload_fmt + length spec.text + length code in
    do
      block ← page_block len (format payload_fmt (num spec.status ∷ str spec.text ∷ []))
      send_text sys res block len

pub send_file : System → Response → Bytes → Bool → M (ℕ × Response)
send_file sys res contents false = pure (0, res)
send_file sys res contents true = send_text sys res contents (length contents)

pub open_file : System → Response → Option Bytes → M (ℕ × Response)
open_file sys res none = pure (0, res)
open_file sys res (some contents) = do block ← alloc; send_file sys res contents block

pub by_mode : System → Response → SpecResponse → Option Bytes → M (ℕ × Response)
by_mode sys res spec none = do
  code ← to_base spec.status
  block ← alloc
  send_page sys res spec code block
by_mode sys res spec (some mode) = open_file sys res (sys.fopen spec.text)

pub sr : System → Response → SpecResponse → M (ℕ × Response)
sr sys res spec = by_mode sys (set_status res spec.status) spec spec.mode
