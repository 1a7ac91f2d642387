-- ===== src/Process/Static.antt =====
-- A request for a static file that is there.
use simple_http.Base.{
  ℕ, ◌+◌, ◌%◌, ◌^◌, ◌<◌, ◌≡◌, ◌≢◌, refl, ap, ◌∙◌, true, false, none, some, List, [], ◌∷◌, ◌++◌,
  Bytes, codes, length, length-append, arith, ◌==◌, ==_ne,
}
use simple_http.Effects.{World, done, size_max, alloc, alloc_or_fatal}
use simple_http.Effects.Outcomes.{calm}
use simple_http.System.{System, FileStat}
use simple_http.Mime.{m_file, content_type}
use simple_http.Status.{ok_status, lookup_status}
use simple_http.Response.{KeepAlive, Response, new_response, word_mod, default_len}
use simple_http.Response.Head.{head}
use simple_http.Response.Payload.{type_header, length_header, add_file_to_payload-contents}
use simple_http.Response.Write.Loop.{header_lines}
use simple_http.Response.Write.Wire.{Ready, wire, returned, write_response-wire}
use simple_http.Parser
use simple_http.Parser.{
  Method, unknown, get, post, put, delete, patch, options, ParseStatus, parse_ok, UriPath, heap,
  Request, method_to_string,
}
use simple_http.VirtualPath.{Lua, static, virtual_path_resolv}
use simple_http.Process
use simple_http.Process.{pos, process_request, served_path, replaced}

-- The response for a request before anything is put into it.
abbrev pub base_response : Request → KeepAlive → Response
base_response req ka = record {
  cfd = req.cfd;
  status = ok_status;
  keep_alive = some ka;
  headers = [];
  payload = none;
  len = 0;
  buffer = [];
}

-- The response with a file.
abbrev pub file_response : Request → KeepAlive → Bytes → Bytes → Response
file_response req ka type contents = record (base_response req ka) {
  headers = type_header type ∷ length_header (length contents) ∷ [];
  payload = some contents;
  len = length contents;
}

pub new_response-calm :
    (req : Request) (ka : KeepAlive) (fds : List ℕ) (next : ℕ) (input sent : Bytes)
    → new_response req.cfd (lookup_status (pos 200)) (some ka) (calm fds next input sent)
      ≡ done (base_response req ka) (calm fds next input sent)
unfolding new_response lookup_status alloc_or_fatal
new_response-calm req ka fds next input sent = refl

pub process_method_lem :
    (sys : System) (lua : Lua) (root : Bytes) (ka : KeepAlive) (req : Request) (m : Method)
    (w : World)
    → m ≢ unknown
    → Process.process_method sys lua root ka req m w
      ≡ Process.process_uri sys lua root ka req req.path w
unfolding Process.process_method
process_method_lem sys lua root ka req unknown w h = absurd (h refl)
process_method_lem sys lua root ka req get w h = refl
process_method_lem sys lua root ka req post w h = refl
process_method_lem sys lua root ka req put w h = refl
process_method_lem sys lua root ka req delete w h = refl
process_method_lem sys lua root ka req patch w h = refl
process_method_lem sys lua root ka req options w h = refl
process_method_lem sys lua root ka req Parser.head w h = refl

-- A request that the routes leave to the static files, up to the `stat` of its file.
pub process_request_static :
    (sys : System) (lua : Lua) (root : Bytes) (ka : KeepAlive) (req : Request) (path : Bytes)
    (fds : List ℕ) (next : ℕ) (input sent : Bytes)
    → req.method ≢ unknown
    → req.path ≡ heap path
    → virtual_path_resolv sys lua path req.cfd
        (method_to_string req.method)
        ka
        (calm fds next input sent)
      ≡ done static (calm fds next input sent)
    → process_request sys lua (some root) ka req (calm fds next input sent)
      ≡ Process.serve_stat sys
          (base_response req ka)
          (root ++ served_path path)
          req.path
          (record req { path = replaced path })
          (sys.stat (root ++ served_path path))
          (calm fds next input sent)
unfolding process_request Process.process_uri Process.process_path Process.by_lookup
    Process.serve_static Process.serve_named alloc
process_request_static sys lua root ka req path fds next input sent hm hp hv =
    process_method_lem sys lua root ka req req.method (calm fds next input sent) hm
    ∙ ap (λ (p : UriPath). Process.process_uri sys lua root ka req p (calm fds next input sent)) hp
    ∙ rw (hv, new_response-calm req ka fds next input sent)

-- A count that is no error.
count_small :
    (first lines contents : Bytes)
    → length first + length lines < default_len
    → length contents < 2 ^ 63
    → (length lines + length (first ++ (lines ++ (codes "\r\n" ++ contents)))) % word_mod ≢ size_max
count_small first lines contents fits small e =
    let total : length (first ++ (lines ++ (codes "\r\n" ++ contents)))
        ≡ length first + (length lines + (2 + length contents)) =
      simp length-append (omega arith) in
    omega (arith, total, e, fits, small)

-- Where the routes leave a request with a known method to the static files, and its file is
-- regular, not empty, readable, of a known type and below 2^63 bytes, a calm connection that can
-- take the response gets exactly the status line for 200, the fixed headers, the file's type, its
-- length cast to an `int`, an empty line and the file, byte for byte. The file is the root with
-- the path behind it as the client sent it, or with `/index.html` for an index; the result is
-- `PARSE_OK`, and the request is as before.
pub process_request-wire :
    (sys : System) (lua : Lua) (root : Bytes) (ka : KeepAlive) (req : Request) (path : Bytes)
    (st : FileStat) (contents type : Bytes) (fds : List ℕ) (next : ℕ) (input sent : Bytes)
    → req.method ≢ unknown
    → req.path ≡ heap path
    → virtual_path_resolv sys lua path req.cfd
        (method_to_string req.method)
        ka
        (calm fds next input sent)
      ≡ done static (calm fds next input sent)
    → sys.stat (root ++ served_path path) ≡ some st
    → st.is_reg ≡ true
    → (st.st_size == 0) ≡ false
    → sys.fopen (root ++ served_path path) ≡ some contents
    → content_type sys.magic m_file (root ++ served_path path) (calm fds next input sent)
      ≡ done (some type) (calm fds next input sent)
    → Ready sys.commit (file_response req ka type contents) ka fds
    → length contents < 2 ^ 63
    → process_request sys lua (some root) ka req (calm fds next input sent)
      ≡ done
          (parse_ok, req)
          (calm fds next input (sent ++ wire sys.commit (file_response req ka type contents) ka))
unfolding Process.serve_stat Process.serve_regular Process.serve_sized Process.serve_file
    Process.written
process_request-wire sys lua root ka req path st contents type fds next input sent hm hp hv there
      regular full opened typed ready small =
    process_request_static sys lua root ka req path fds next input sent hm hp hv
    ∙ rw (
      there,
      Process.serve_stat,
      regular,
      full,
      add_file_to_payload-contents sys (base_response req ka) (root ++ served_path path) fds next
          input sent opened typed,
      write_response-wire sys.commit (file_response req ka type contents) ka fds next input sent
          ready,
      ==_ne _ size_max counted,
    )
  where
    counted : returned sys.commit (file_response req ka type contents) ka ≢ size_max
    counted =
        count_small (head sys.commit ok_status ka)
          (header_lines (file_response req ka type contents).headers) contents ready.fits small
