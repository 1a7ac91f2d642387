-- ===== src/Job/Serve.antt =====
-- A request for a static file, from the bytes of the client to the bytes of the answer.
use simple_http.Base.{
  ℕ, suc, ◌^◌, ◌<◌, ◌≡◌, ◌≢◌, refl, true, false, some, List, [], ◌∷◌, ◌++◌, Bytes, codes, length,
  ◌==◌,
}
use simple_http.Base.Int.{ℤ, pos}
use simple_http.Effects.{done, is_open, alloc}
use simple_http.Effects.Outcomes.{calm}
use simple_http.System.{System, FileStat}
use simple_http.Mime.{m_file, content_type}
use simple_http.Response.{KeepAlive}
use simple_http.Response.Write.Wire.{Ready, wire}
use simple_http.Parser.{
  Method, unknown, null, heap, method_of, method_to_string, Request, PairSs, init_request,
}
use simple_http.Parser.Lines.{fgets}
use simple_http.Parser.Tokens.Words.{words}
use simple_http.Parser.Closing.{closed}
use simple_http.Parser.Accepts.{parse_request_accepts}
use simple_http.VirtualPath.{Lua, static, virtual_path_resolv}
use simple_http.Process
use simple_http.Process.{served_path, free_request, process_request}
use simple_http.Process.Static.{file_response, process_request-wire}
use simple_http.Job
use simple_http.Job.{serve}

-- The request that `parse_request` hands on.
abbrev pub parsed_request : ℕ → Method → Bytes → List PairSs → Request
parsed_request fd method path headers = record {
  cfd = pos fd;
  method = method;
  path = heap path;
  path_length = length path;
  headers = headers;
}

-- A request line is read, and the routes leave its path to the static files, whatever of the request
-- is left to read; the file is there, and the new descriptor can take it.
pub record Serves (sys : System) (lua : Lua) (root : Bytes) (cfd : ℤ) (ka : KeepAlive)
    (fds : List ℕ) (next : ℕ) (input sent : Bytes) (word path contents type : Bytes) : Type 0 where
  pub line : Bytes
  pub rest : Bytes
  pub more : List Bytes
  pub st : FileStat
  pub opened : is_open cfd fds ≡ true
  pub first : fgets input ≡ some (line, rest)
  pub split : words (codes " ") line [] ≡ word ∷ path ∷ more
  pub known : method_of unknown word ≢ unknown
  pub routed :
      (left : Bytes)
      → virtual_path_resolv sys lua path
          (pos next)
          (method_to_string (method_of unknown word))
          ka
          (calm (closed cfd (next ∷ fds)) (suc next) left sent)
        ≡ done static (calm (closed cfd (next ∷ fds)) (suc next) left sent)
  pub there : sys.stat (root ++ served_path path) ≡ some st
  pub regular : st.is_reg ≡ true
  pub full : (st.st_size == 0) ≡ false
  pub readable : sys.fopen (root ++ served_path path) ≡ some contents
  pub typed :
      (left : Bytes)
      → content_type sys.magic m_file
          (root ++ served_path path)
          (calm (closed cfd (next ∷ fds)) (suc next) left sent)
        ≡ done (some type) (calm (closed cfd (next ∷ fds)) (suc next) left sent)
  pub able :
      Ready sys.commit
        (file_response (parsed_request next (method_of unknown word) path []) ka type contents)
        ka
        (closed cfd (next ∷ fds))
  pub small : length contents < 2 ^ 63

module _ (sys : System) (lua : Lua) (root : Bytes) (cfd : ℤ) (ka : KeepAlive) (fds : List ℕ)
    (next : ℕ) (input sent word path contents type : Bytes) where
  -- The bytes of the answer.
  abbrev pub answer : Bytes
  answer =
      wire sys.commit
        (file_response (parsed_request next (method_of unknown word) path []) ka type contents) ka

  -- From the bytes of the client to the bytes of the answer: where a request line with a known
  -- method and a path can be read on an open connection, the routes leave the path to the static
  -- files, the file is regular, not empty, readable, of a known type and below 2^63 bytes, and the
  -- copied descriptor can take the response, serving the request with nothing failing returns,
  -- closes the client's descriptor, leaves the copy open, and sends exactly the status line for
  -- 200, the fixed headers, the file's type and length, an empty line and the file.
  pub serve-answer :
      Serves sys lua root cfd ka fds next input sent word path contents type
      → (left : Bytes) × (serve sys lua (some root) cfd ka (calm fds next input sent)
          ≡ done tt (calm (closed cfd (next ∷ fds)) (suc next) left (sent ++ answer)))
  unfolding serve Job.serve_request init_request free_request Process.free_path alloc
  serve-answer s =
      let (headers, left, parsed) =
        parse_request_accepts
          (record { cfd = cfd; method = unknown; path = null; path_length = 0; headers = [] }) word
          path s.more s.line s.rest fds next input sent s.opened s.first s.split in
      (
        left,
        rw (
          parsed,
          process_request-wire sys lua root ka
              (parsed_request next (method_of unknown word) path headers) path s.st contents type
              (closed cfd (next ∷ fds)) (suc next) left sent s.known refl (s.routed left) s.there
              s.regular s.full s.readable (s.typed left) s.able s.small,
        ),
      )
