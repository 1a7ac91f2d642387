-- ===== src/Response/Payload.antt =====
-- What `add_header`, `set_payload`, `add_to_payload` and `add_file_to_payload` do to a response.
use simple_http.Base.{
  ℕ, ◌+◌, ◌%◌, ◌≤◌, ◌<◌, ◌≡◌, refl, ap, ◌∙◌, some, List, [], ◌∷◌, ◌++◌, Bytes, codes, length, take,
  length-append, length-take, append_assoc, arith, le→leb,
}
use simple_http.Base.Int.{ℤ, IsInt, to_int, to_int-IsInt}
use simple_http.Printf.{show_int}
use simple_http.Itoa.Decimal.{itoa_base-show_int}
use simple_http.Mime.{m_file, content_type}
use simple_http.System.{System}
use simple_http.Effects.{insert_node, World, done, alloc, alloc_or_fatal}
use simple_http.Effects.Outcomes.{calm}
use simple_http.Response.{
  extend_payload, add_to, Header, Response, word_mod, add_header, set_payload, add_to_payload,
  to_base, describe, load_file, add_file_to_payload,
}

pub add_header-calm :
    (res : Response) (name value : Bytes) (fds : List ℕ) (next : ℕ) (input sent : Bytes)
    → add_header res name value (calm fds next input sent)
      ≡ done
          (record res { headers = res.headers ++ (record { name = name; value = value }) ∷ [] })
          (calm fds next input sent)
unfolding add_header alloc alloc_or_fatal insert_node
add_header-calm res name value fds next input sent = refl

pub to_base_show : (x : ℤ) (w : World) → IsInt x → to_base x w ≡ done (show_int x) w
unfolding to_base
to_base_show x w h = rw (itoa_base-show_int x h)

pub set_payload-calm :
    (res : Response) (source : Bytes) (len : ℕ) (fds : List ℕ) (next : ℕ) (input sent : Bytes)
    → len ≤ length source
    → set_payload res source len (calm fds next input sent)
      ≡ done
          (len, record res { payload = some (take len source); len = len })
          (calm fds next input sent)
unfolding set_payload alloc_or_fatal
set_payload-calm res source len fds next input sent h = rw (le→leb len (length source) h)

extend_payload-calm :
    (res : Response) (old source : Bytes) (len : ℕ) (fds : List ℕ) (next : ℕ) (input sent : Bytes)
    → res.len ≡ length old
    → len ≤ length source
    → length old + len < word_mod
    → extend_payload res old source len (calm fds next input sent)
      ≡ done
          (
            length (old ++ take len source),
            record res {
              payload = some (old ++ take len source);
              len = length (old ++ take len source);
            },
          )
          (calm fds next input sent)
unfolding extend_payload alloc_or_fatal
extend_payload-calm res old source len fds next input sent sized h small =
    rw (le→leb len (length source) h) (
      ap
        (λ (n : ℕ).
          let r : ℕ × Response =
            (n, record res { payload = some (old ++ take len source); len = n }) in
          done r (calm fds next input sent))
        total)
  where
    total : (res.len + len) % word_mod ≡ length (old ++ take len source)
    total = omega (arith, sized, length-append old (take len source), length-take len source)

-- Where memory suffices, the first bytes of a source that is long enough are appended to a payload
-- of the stored length, and the length grows with it, if it stays below 2^64.
pub add_to_payload-append :
    (res : Response) (old source : Bytes) (len : ℕ) (fds : List ℕ) (next : ℕ) (input sent : Bytes)
    → res.payload ≡ some old
    → res.len ≡ length old
    → len ≤ length source
    → length old + len < word_mod
    → add_to_payload res source len (calm fds next input sent)
      ≡ done
          (
            length (old ++ take len source),
            record res {
              payload = some (old ++ take len source);
              len = length (old ++ take len source);
            },
          )
          (calm fds next input sent)
unfolding add_to_payload add_to
add_to_payload-append res old source len fds next input sent held sized h small =
    (λ i. add_to (held i) res source len (calm fds next input sent))
    ∙ extend_payload-calm res old source len fds next input sent sized h small

-- The headers that describe a file's contents.
abbrev pub type_header : Bytes → Header
type_header type = record { name = codes "Content-Type"; value = type }

abbrev pub length_header : ℕ → Header
length_header n = record { name = codes "Content-Length"; value = show_int (to_int n) }

describe-calm :
    (res : Response) (type : Bytes) (fds : List ℕ) (next : ℕ) (input sent : Bytes)
    → describe res (some type) (calm fds next input sent)
      ≡ done
          (
            res.len,
            record res { headers = res.headers ++ type_header type ∷ length_header res.len ∷ [] },
          )
          (calm fds next input sent)
unfolding describe
describe-calm res type fds next input sent = rw (
  add_header-calm res (codes "Content-Type") type fds next input sent,
  to_base_show (to_int res.len) (calm fds next input sent) (to_int-IsInt res.len),
  add_header-calm (record res { headers = res.headers ++ type_header type ∷ [] })
      (codes "Content-Length") (show_int (to_int res.len)) fds next input sent,
  append_assoc res.headers (type_header type ∷ []) (length_header res.len ∷ []),
)

-- Where memory suffices, a file that can be read and has a type becomes the payload, byte for
-- byte, and the type and the length, as an `int`, are added as headers.
pub add_file_to_payload-contents :
    (sys : System) (res : Response) (file : Bytes) {contents type : Bytes} (fds : List ℕ) (next : ℕ)
    (input sent : Bytes)
    → sys.fopen file ≡ some contents
    → content_type sys.magic m_file file (calm fds next input sent)
      ≡ done (some type) (calm fds next input sent)
    → add_file_to_payload sys res file (calm fds next input sent)
      ≡ done
          (
            length contents,
            record res {
              headers = res.headers ++ type_header type ∷ length_header (length contents) ∷ [];
              payload = some contents;
              len = length contents;
            },
          )
          (calm fds next input sent)
unfolding add_file_to_payload load_file alloc_or_fatal
add_file_to_payload-contents sys res file {contents} {type} fds next input sent opened typed =
    rw (opened, typed)
      (describe-calm (record res { payload = some contents; len = length contents }) type fds next
        input sent)
