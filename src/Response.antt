-- ===== src/Response.antt =====
-- src/write_response.c and src/write_response.h: a response, and how it is filled. The file pointer
-- is open only within `add_file_to_payload`. The blocks of memory are in Response/Blocks.
pub mod Blocks
pub mod Write
pub mod Head
pub mod Payload
use simple_http.Base.{
  ℕ, zero, suc, ◌+◌, ◌-◌, ◌*◌, ◌%◌, ◌^◌, Bool, true, false, Option, none, some, List, [], ◌∷◌, ◌++◌,
  Bytes, codes, ◌==◌, ltb, leb, if◌then◌else◌, length, take, drop, replicate,
}
use simple_http.Base.Int.{ℤ, pos, negsuc, is_neg, to_int}
use simple_http.Printf.{Arg, num, str, format, Printed, snprintf}
use simple_http.Itoa.{itoa_base}
use simple_http.Status.{Status, ok_status, lookup_status}
use simple_http.Effects.{
  insert_node, M, pure, ◌>>=◌, ◌>>◌, alloc, alloc_or_fatal, alloc_or_crash, undefined, size_max,
}
use simple_http.Mime.{m_file, content_type}
use simple_http.System.{System}

-- `keep_alive_t` of src/lua/setup.h
pub record KeepAlive : Type 0 where
  pub keep_alive : Bool
  pub timeout : ℤ
  pub max : ℤ

pub record Header : Type 0 where
  pub name : Bytes
  pub value : Bytes

-- A `keep_alive` of none is a pointer to an object that is gone.
pub record Response : Type 0 where
  pub cfd : ℤ
  pub status : Status
  pub keep_alive : Option KeepAlive
  pub headers : List Header
  pub payload : Option Bytes
  pub len : ℕ
  -- the first `buffer_pos` bytes of the buffer
  pub buffer : Bytes

-- DEFAULT_LEN, one MiB
abbrev pub default_len : ℕ
default_len = 1048576

abbrev pub word_mod : ℕ
word_mod = 2 ^ 64

or_ok : Option Status → Status
or_ok none = ok_status
or_ok (some s) = s

-- Without settings the response keeps a pointer to a compound literal of this function's block. An
-- allocation that fails is fatal, so that the result is never NULL.
unfoldable pub new_response : ℤ → Option Status → Option KeepAlive → M Response
unfolding alloc_or_fatal or_ok
new_response cfd status keep_alive = do
  alloc_or_fatal
  alloc_or_fatal
  pure (record {
    cfd = cfd;
    status = or_ok status;
    keep_alive = keep_alive;
    headers = [];
    payload = none;
    len = 0;
    buffer = [];
  })

-- The pair and the copies of the name and of the value are allocated, then the list's node.
unfoldable pub add_header : Response → Bytes → Bytes → M Response
unfolding insert_node alloc_or_fatal
add_header res name value = do
  alloc_or_fatal
  alloc_or_fatal
  alloc_or_fatal
  headers ← insert_node res.headers (record { name = name; value = value })
  pure (record res { headers = headers })

-- `memcpy` of `len` bytes; a source block that is shorter is read past its end.
copy : Bytes → ℕ → M Bytes
copy source len = if leb len (length source) then pure (take len source) else undefined

unfoldable pub set_payload : Response → Bytes → ℕ → M (ℕ × Response)
unfolding alloc_or_fatal copy
set_payload res source len = do
  alloc_or_fatal
  block ← copy source len
  pure (len, record res { payload = some block; len = len })

pub extend_payload : Response → Bytes → Bytes → ℕ → M (ℕ × Response)
unfolding copy
extend_payload res old source len = do
  alloc_or_fatal
  block ← copy source len
  let total = (res.len + len) % word_mod
  pure (total, record res { payload = some (old ++ block); len = total })

pub add_to : Option Bytes → Response → Bytes → ℕ → M (ℕ × Response)
add_to none res source len = set_payload res source len
add_to (some old) res source len = extend_payload res old source len

unfoldable pub add_to_payload : Response → Bytes → ℕ → M (ℕ × Response)
unfolding add_to
add_to_payload res source len = add_to res.payload res source len

unfoldable pub set_status : Response → ℤ → Response
unfolding or_ok
set_status res code = record res { status = or_ok (lookup_status code) }

unfoldable pub or_undefined : Option Bytes → M Bytes
or_undefined none = undefined
or_undefined (some s) = pure s

-- `TO_BASE(x, 10)`, its argument an `int`
unfoldable pub to_base : ℤ → M Bytes
unfolding or_undefined
to_base x = or_undefined (itoa_base x (pos 10))

-- The headers that go with a payload from a file; without a type the payload is dropped.
pub describe : Response → Option Bytes → M (ℕ × Response)
describe res none = pure (size_max, record res { payload = none; len = 0 })
describe res (some type) = do
  typed ← add_header res (codes "Content-Type") type
  digits ← to_base (to_int typed.len)
  sized ← add_header typed (codes "Content-Length") digits
  pure (sized.len, sized)

load_file : System → Response → Bytes → Option Bytes → M (ℕ × Response)
load_file sys res file none = pure (size_max, res)
load_file sys res file (some contents) = do
  alloc_or_fatal
  type ← content_type sys.magic m_file file
  describe (record res { payload = some contents; len = length contents }) type

-- The length, or (size_t)-1.
unfoldable pub add_file_to_payload : System → Response → Bytes → M (ℕ × Response)
unfolding load_file
add_file_to_payload sys res file = load_file sys res file (sys.fopen file)

-- `is_valid(res)` of a response that is not NULL.
has_payload : Option Bytes → ℕ → Bool
has_payload none len = len == 0
has_payload (some p) len = true

unfoldable pub is_valid : Response → Bool
unfolding has_payload
is_valid res =
    if is_neg res.cfd
    then false
    else if length res.buffer == 0
    then false
    else has_payload res.payload res.len
