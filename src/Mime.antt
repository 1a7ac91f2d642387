-- ===== src/Mime.antt =====
-- src/mime_guess.c and src/mime_guess.h: the content type of a file or of a text. libmagic is the
-- record `Magic`: what it says of a file name and of a buffer, or NULL.
pub mod Types
use simple_http.Base.{
  ℕ, zero, suc, ◌+◌, ◌-◌, ◌≡◌, refl, Bool, true, false, Option, none, some, List, [], ◌∷◌, Bytes,
  codes, ◌==◌, if◌then◌else◌, length, str_eq,
}
use Prim.Native.String.{String}
use simple_http.Printf.{snprintf}
use simple_http.Effects.{M, pure, ◌>>=◌, alloc, undefined}

pub record Magic : Type 0 where
  pub magic_file : Bytes → Option Bytes
  pub magic_buffer : Bytes → Option Bytes

pub data MType : Type 0 where
  m_file m_buffer : MType

pub record MimeType : Type 0 where
  pub name : Bytes
  pub ext : Bytes

abbrev mime : String → String → MimeType
mime name ext = record { name = codes name; ext = codes ext }

-- The table up to its sentinel.
unfoldable pub mime_map : List MimeType
mime_map =
    mime "text/html" ".html"
    ∷ mime "text/css" ".css"
    ∷ mime "application/javascript" ".js"
    ∷ mime "application/json" ".json"
    ∷ mime "application/xml" ".xml"
    ∷ []

-- `strrchr(s, c)`: the tail from the last `c` on.
unfoldable pub strrchr : Bytes → ℕ → Option Bytes
strrchr [] c = none
strrchr (b ∷ s) c =
    let rest = strrchr s c in
    elim rest [ some tail ↦ some tail | none ↦ if b == c then some (b ∷ s) else none ]

-- The loop over the table: the name of the first entry with the extension.
unfoldable pub find_ext : List MimeType → Bytes → Option Bytes
find_ext [] dot = none
find_ext (m ∷ ms) dot = if str_eq m.ext dot then some m.name else find_ext ms dot

by_ext : Option Bytes → Option Bytes
by_ext none = none
by_ext (some dot) = find_ext mime_map dot

-- The entry of the table for a name, if it has an extension that the table knows.
unfoldable pub known : Bytes → Option Bytes
unfolding by_ext
known payload = by_ext (strrchr payload b'.')

abbrev pub ask : Magic → MType → Bytes → Option Bytes
ask magic m_file payload = magic.magic_file payload
ask magic m_buffer payload = magic.magic_buffer payload

strdup : Bytes → M (Option Bytes)
strdup s = do ok ← alloc; pure (if ok then some s else none)

-- Behind the label `cont`: the text that libmagic returned is printed into a block of its length,
-- with no room for the terminator. `strlen(NULL)`, and a print into the block that `calloc` did
-- not give, are undefined.
guess : Option Bytes → M (Option Bytes)
guess none = undefined
guess (some text) = do
  ok ← alloc
  if ok then pure (some (snprintf (length text) text).text) else undefined

answer : Option Bytes → Option Bytes → M (Option Bytes)
answer (some name) said = strdup name
answer none said = guess said

-- `ContentType(type, payload)` of a payload that is not NULL.
unfoldable pub content_type : Magic → MType → Bytes → M (Option Bytes)
unfolding strdup guess answer
content_type magic type payload = answer (known payload) (ask magic type payload)
