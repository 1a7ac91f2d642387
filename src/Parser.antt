-- ===== src/Parser.antt =====
-- src/parser.c and src/parser.h: the request and `parse_request`. Blocks that are given back are
-- not modelled, but for the blocks that the stored headers point to.
pub mod Lines
pub mod Tokens
pub mod Headers
pub mod Closing
pub mod Descriptors
pub mod Accepts
use simple_http.Base.{
  ℕ, zero, suc, ◌+◌, Bool, true, false, not, ◌&&◌, ◌||◌, Option, none, some, List, [], ◌∷◌, ◌++◌,
  Bytes, codes, str_eq, if◌then◌else◌, length, map,
}
use simple_http.Base.Int.{ℤ}
use simple_http.Effects.{
  M, Run, done, pure, ◌>>=◌, ◌>>◌, undefined, World, alloc, insert_node, is_open, close, dup,
}
use simple_http.Parser.Lines.{fgets}
use simple_http.Parser.Tokens.{split_on_c}

-- `http_method_t`
pub data Method : Type 0 where
  unknown get post put delete patch options head : Method

-- `parse_status_t`
pub data ParseStatus : Type 0 where
  parse_ok parse_err no_memory invalid_request invalid_method invalid_uri file_not_found
        invalid_response write_failed :
      ParseStatus

-- `path` is NULL, a block of the heap or a string literal.
pub data UriPath : Type 0 where
  null : UriPath
  heap : Bytes → UriPath
  literal : Bytes → UriPath

-- A pointer to a string, or to a block that was given back.
pub data Pointer : Type 0 where
  valid : Bytes → Pointer
  dangling : Pointer

-- `pair_ss_t`
pub record PairSs : Type 0 where
  pub v1 : Pointer
  pub v2 : Pointer

-- The fields `body`, `body_length` and `query_params` stay as `calloc` leaves them.
pub record Request : Type 0 where
  pub cfd : ℤ
  pub method : Method
  pub path : UriPath
  pub path_length : ℕ
  pub headers : List PairSs

-- `init_request(cfd)`: NULL without memory.
unfoldable pub init_request : ℤ → M (Option Request)
init_request cfd = do
  block ← alloc
  pure (
      if block
      then some (record { cfd = cfd; method = unknown; path = null; path_length = 0; headers = [] })
      else none)

abbrev pub method_to_string : Method → Bytes
method_to_string get = codes "GET"
method_to_string post = codes "POST"
method_to_string put = codes "PUT"
method_to_string delete = codes "DELETE"
method_to_string patch = codes "PATCH"
method_to_string options = codes "OPTIONS"
method_to_string head = codes "HEAD"
method_to_string unknown = codes "UNKNOWN"

-- The ladder of `strcmp`; a word that is no method leaves `old`.
unfoldable pub method_of : Method → Bytes → Method
method_of old word =
    if str_eq word (codes "GET")
    then get
    else if str_eq word (codes "POST")
    then post
    else if str_eq word (codes "PUT")
    then put
    else if str_eq word (codes "DELETE")
    then delete
    else if str_eq word (codes "PATCH")
    then patch
    else if str_eq word (codes "OPTIONS")
    then options
    else if str_eq word (codes "HEAD")
    then head
    else old

pub advance : World → Option (Bytes × Bytes) → Run (Option Bytes)
advance w none = done none w
advance w (some (line, rest)) = done (some line) (record w { input = rest })

-- `fgets` on the stream over the connection. What stdio reads ahead counts as not yet read.
pub next_line : M (Option Bytes)
unfolding advance
next_line w = advance w (fgets w.input)

abbrev pub is_end : Bytes → Bool
is_end line = str_eq line (codes "\r\n") || str_eq line (codes "\n")

-- What `free_list` of a line's list makes of the stored pairs: the newest points into that list,
-- and the others dangle already.
abbrev pub release : PairSs → PairSs
release p = record { v1 = dangling; v2 = dangling }

-- `insert_node` of the pair, and `free_list` of the list that it points to. Without memory for the
-- pair the request is given up.
pub insert_pair : List PairSs → PairSs → Bool → M (Bool × List PairSs)
insert_pair headers pair false = pure (false, headers)
insert_pair headers pair true = do
  stored ← insert_node headers pair
  pure (true, map release stored)

abbrev pub pair_of : Bytes → Bytes → PairSs
pair_of name value = record { v1 = valid name; v2 = valid value }

pub store_pair : List PairSs → List Bytes → M (Bool × List PairSs)
store_pair headers [] = pure (true, headers)
store_pair headers (name ∷ []) = pure (true, headers)
store_pair headers (name ∷ value ∷ _) = do
  block ← alloc
  insert_pair headers (pair_of name value) block

pub split_header : List PairSs → Bytes → Bool → M (Bool × List PairSs)
split_header headers line false = pure (false, headers)
split_header headers line true = do words ← split_on_c (codes ": ") line; store_pair headers words

-- One line of the header loop, whose copy is made first.
pub header_line : List PairSs → Bytes → M (Bool × List PairSs)
header_line headers line = do copy ← alloc; split_header headers line copy

-- One round of the loop over the header lines, with the rounds behind it; false says that memory
-- ran out.
pub go_on : (List PairSs → M (Bool × List PairSs)) → Bool × List PairSs → M (Bool × List PairSs)
go_on again (false, headers) = pure (false, headers)
go_on again (true, headers) = again headers

pub on_line :
    (List PairSs → M (Bool × List PairSs)) → List PairSs → Option Bytes → M (Bool × List PairSs)
on_line again headers none = pure (true, headers)
on_line again headers (some line) =
    if is_end line then pure (true, headers) else (header_line headers line >>= go_on again)

-- Every round reads a byte or more, so that a fuel above the length of the input is enough.
pub headers_loop : ℕ → List PairSs → M (Bool × List PairSs)
headers_loop zero headers = undefined
headers_loop (suc f) headers = next_line >>= on_line (headers_loop f) headers

pub read_headers : List PairSs → M (Bool × List PairSs)
read_headers headers w = headers_loop (suc (length w.input)) headers w

-- `fclose(fp)`, which closes the descriptor below the stream, and the result.
pub finish : Request → ParseStatus → M (ParseStatus × Request)
finish req status = do _ ← close req.cfd; pure (status, req)

-- The stream is closed in either case; the request goes on with the copy.
pub hand_over : Request → Option ℤ → M (ParseStatus × Request)
hand_over req none = finish req parse_err
hand_over req (some fd) = do _ ← close req.cfd; pure (parse_ok, record req { cfd = fd })

pub after_headers : Request → Bool × List PairSs → M (ParseStatus × Request)
after_headers req (false, headers) = finish (record req { headers = headers }) no_memory
after_headers req (true, headers) = do
  fd ← dup req.cfd
  hand_over (record req { headers = headers }) fd

pub set_path : Request → Bytes → Bool → M (ParseStatus × Request)
set_path req path false = finish req no_memory
set_path req path true =
    let named = record req { path = heap path; path_length = length path } in
    do r ← read_headers named.headers; after_headers named r

pub request_line : Request → List Bytes → M (ParseStatus × Request)
request_line req [] = finish req invalid_request
request_line req (word ∷ []) = finish req invalid_request
request_line req (word ∷ path ∷ _) = do
  copy ← alloc
  set_path (record req { method = method_of req.method word }) path copy

pub first_line : Request → Option Bytes → M (ParseStatus × Request)
first_line req none = finish req parse_err
first_line req (some line) = do words ← split_on_c (codes " ") line; request_line req words

-- `fdopen` without memory leaves the descriptor open.
pub on_stream : Request → Bool → M (ParseStatus × Request)
on_stream req false = pure (parse_err, req)
on_stream req true = next_line >>= first_line req

-- `parse_request(req)` of a request that is not NULL. `fdopen` fails on a descriptor that is closed,
-- and without memory.
pub parse_request : Request → M (ParseStatus × Request)
parse_request req w =
    if is_open req.cfd w.fds then (alloc >>= on_stream req) w else done (parse_err, req) w
