-- ===== src/Process.antt =====
-- `process_request` of src/parser.c, `free_request`, and what src/threadJob.c does with one request.
pub mod Static
pub mod Refused
pub mod Unserved
pub mod Routed
use simple_http.Base.{
  ℕ, ◌+◌, Bool, true, false, Option, none, some, List, [], ◌∷◌, ◌++◌, Bytes, codes, if◌then◌else◌,
  length, ltb, ◌==◌,
}
use simple_http.Base.Int.{ℤ, pos}
use simple_http.Effects.{M, pure, ◌>>=◌, ◌>>◌, undefined, alloc, size_max}
use simple_http.System.{System, FileStat}
use simple_http.Status.{lookup_status}
use simple_http.Response.{KeepAlive, Response, new_response, add_file_to_payload}
use simple_http.Response.Write.{write_response}
use simple_http.Spec.{SpecResponse, sr}
use simple_http.Parser.{
  Method, unknown, ParseStatus, parse_ok, no_memory, invalid_request, invalid_method, invalid_uri,
  file_not_found, write_failed, UriPath, null, heap, literal, Request, method_to_string,
}
use simple_http.VirtualPath.{
  Lua, LookupStatus, nil, ok_lookup, handled, static, wrong_verb, virtual_path_resolv,
}

abbrev pub plain : ℤ → Bytes → SpecResponse
plain status text = record { status = status; text = text; mode = none }

-- `sr(res, …)`, and the result.
pub refuse : System → Response → SpecResponse → ParseStatus → Request → M (ParseStatus × Request)
refuse sys res spec status req = do _ ← sr sys res spec; pure (status, req)

-- `strcmp(path, "/") <= 0`: the empty path, `/`, and each path that starts below `/`.
abbrev pub is_index : Bytes → Bool
is_index [] = true
is_index (c ∷ []) = ltb c 48
is_index (c ∷ d ∷ s) = ltb c 47

-- The path that is served, and whether it replaced the request's.
abbrev pub index_path : Bytes
index_path = codes "/index.html"

abbrev pub served_path : Bytes → Bytes
served_path path = if is_index path then index_path else path

abbrev pub replaced : Bytes → UriPath
replaced path = if is_index path then literal index_path else heap path

-- Behind `write_response`: a count of (size_t)-1 is its error, and only behind the other the path is
-- restored.
pub written : Request → UriPath → ℕ → ParseStatus × Request
written req old count =
    if count == size_max then (write_failed, req) else (parse_ok, record req { path = old })

pub serve_file : System → Response → Bytes → UriPath → Request → M (ParseStatus × Request)
serve_file sys res file old req = do
  (_, loaded) ← add_file_to_payload sys res file
  (count, _) ← write_response sys.commit loaded
  pure (written req old count)

pub serve_sized : System → Response → Bytes → UriPath → Request → Bool → M (ParseStatus × Request)
serve_sized sys res file old req true =
    refuse sys res (plain (pos 204) (codes "No Content")) parse_ok req
serve_sized sys res file old req false = serve_file sys res file old req

-- A file that is not regular gets no response.
pub serve_regular :
    System → Response → Bytes → UriPath → Request → Bool → Bool → M (ParseStatus × Request)
serve_regular sys res file old req false empty = pure (invalid_request, req)
serve_regular sys res file old req true empty = serve_sized sys res file old req empty

pub serve_stat :
    System → Response → Bytes → UriPath → Request → Option FileStat → M (ParseStatus × Request)
serve_stat sys res file old req none =
    refuse sys res (plain (pos 404) (codes "Not Found")) file_not_found req
serve_stat sys res file old req (some st) =
    serve_regular sys res file old req st.is_reg (st.st_size == 0)

pub serve_named : System → Response → Bytes → UriPath → Request → Bool → M (ParseStatus × Request)
serve_named sys res file old req false =
    refuse sys res (plain (pos 500) (codes "Internal Server Error")) no_memory req
serve_named sys res file old req true = serve_stat sys res file old req (sys.stat file)

-- The static file below the root. The block for its name fits it.
pub serve_static : System → Bytes → Bytes → Response → Request → M (ParseStatus × Request)
serve_static sys root path res req = do
  file ← alloc
  serve_named sys res (root ++ served_path path) req.path (record req { path = replaced path }) file

pub by_lookup :
    System → Bytes → Bytes → Response → Request → LookupStatus → M (ParseStatus × Request)
by_lookup sys root path res req ok_lookup = pure (parse_ok, req)
by_lookup sys root path res req handled = pure (parse_ok, req)
by_lookup sys root path res req wrong_verb =
    refuse sys res (plain (pos 405) (codes "Method Not Allowed")) invalid_method req
by_lookup sys root path res req nil =
    refuse sys res (plain (pos 404) (codes "Not Found")) invalid_uri req
by_lookup sys root path res req static = serve_static sys root path res req

pub process_path : System → Lua → Bytes → KeepAlive → Request → Bytes → M (ParseStatus × Request)
process_path sys lua root ka req path = do
  ret ← virtual_path_resolv sys lua path req.cfd (method_to_string req.method) ka
  res ← new_response req.cfd (lookup_status (pos 200)) (some ka)
  by_lookup sys root path res req ret

-- A path that is NULL is read.
pub process_uri : System → Lua → Bytes → KeepAlive → Request → UriPath → M (ParseStatus × Request)
process_uri sys lua root ka req null = undefined
process_uri sys lua root ka req (heap path) = process_path sys lua root ka req path
process_uri sys lua root ka req (literal path) = process_path sys lua root ka req path

pub process_method : System → Lua → Bytes → KeepAlive → Request → Method → M (ParseStatus × Request)
process_method sys lua root ka req unknown = pure (invalid_method, req)
process_method sys lua root ka req _ = process_uri sys lua root ka req req.path

-- `process_request(req, root, keep_alive)` of a request and settings that are not NULL.
pub process_request : System → Lua → Option Bytes → KeepAlive → Request → M (ParseStatus × Request)
process_request sys lua none ka req = pure (invalid_request, req)
process_request sys lua (some root) ka req = process_method sys lua root ka req req.method

-- `free_request(req)`: a path that is a literal cannot be given back.
unfoldable pub free_path : UriPath → M (Unit {0})
free_path null = pure tt
free_path (heap path) = pure tt
free_path (literal path) = undefined

unfoldable pub free_request : Request → M (Unit {0})
free_request req = free_path req.path
