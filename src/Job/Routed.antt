-- ===== src/Job/Routed.antt =====
-- A request that a route's handler answers, from the bytes of the client to the bytes of the answer.
use simple_http.Base.{
  ℕ, suc, ◌^◌, ◌<◌, ◌≡◌, ◌≢◌, refl, true, false, some, List, [], ◌∷◌, ◌++◌, Bytes, codes, length,
  All, str_eq, take,
}
use simple_http.Base.Int.{ℤ, pos}
use simple_http.Effects.{done, is_open, alloc}
use simple_http.Effects.Outcomes.{calm}
use simple_http.System.{System}
use simple_http.Mime.{m_buffer, content_type}
use simple_http.Response.{KeepAlive}
use simple_http.Response.Write.Wire.{Ready, wire}
use simple_http.Parser.{unknown, null, method_of, method_to_string, init_request}
use simple_http.Parser.Lines.{fgets, c_string}
use simple_http.Parser.Tokens.Words.{words}
use simple_http.Parser.Closing.{closed}
use simple_http.Parser.Accepts.{parse_request_accepts}
use simple_http.VirtualPath.{Lua, Entry, Route, route, table, Handler}
use simple_http.VirtualPath.Routes.{Passes, first_method_is}
use simple_http.VirtualPath.Answer.{text_response, virtual_path_resolv-answer}
use simple_http.Process
use simple_http.Process.{free_request, process_request}
use simple_http.Process.Routed.{process_request_said}
use simple_http.Job
use simple_http.Job.{serve, thread_job, thread_ok, PollResult}
use simple_http.Plugin.{Plugin, Loader}
use simple_http.Plugin.Events.{Quiet}
use simple_http.Job.Serve.{parsed_request}
use simple_http.Job.Once.{thread_job-served}

-- A request line is read, whatever of the request is left to read.
pub record Asks (cfd : ℤ) (fds : List ℕ) (input : Bytes) (word path : Bytes) : Type 0 where
  pub line : Bytes
  pub rest : Bytes
  pub more : List Bytes
  pub opened : is_open cfd fds ≡ true
  pub first : fgets input ≡ some (line, rest)
  pub split : words (codes " ") line [] ≡ word ∷ path ∷ more
  pub known : method_of unknown word ≢ unknown

-- A route that the request reaches first, whose handler answers by a text.
pub record Answers (sys : System) (lua : Lua) (ka : KeepAlive) (path : Bytes) (cfd : ℤ)
    (method : Bytes) (fds : List ℕ) (next : ℕ) (sent text type : Bytes) : Type 0 where
  pub front : List Entry
  pub back : List Entry
  pub route_of : Route
  pub pattern : Bytes
  pub methods : List Bytes
  pub handler : Handler
  pub funcs : lua.funcs ≡ table (front ++ route route_of ∷ back)
  pub passed : All (Passes lua path) front
  pub path_is : route_of.path ≡ some pattern
  pub matches : lua.fnmatch pattern path ≡ true
  pub meth_is : route_of.meth ≡ some methods
  pub allowed : first_method_is method methods ≡ true
  pub handler_is : route_of.handler ≡ some handler
  pub said :
      (left : Bytes)
      → handler cfd method path (calm fds next left sent)
        ≡ done (some text) (calm fds next left sent)
  pub not_handled : str_eq (take 9 (c_string text)) (codes "$!HANDELD") ≡ false
  pub not_static : str_eq (take 8 (c_string text)) (codes "$!STATIC") ≡ false
  pub typed :
      (left : Bytes)
      → content_type sys.magic m_buffer (c_string text) (calm fds next left sent)
        ≡ done (some type) (calm fds next left sent)
  pub small : length (c_string text) < 2 ^ 31
  pub able : Ready sys.commit (text_response cfd ka type (c_string text)) ka fds

module _ (sys : System) (lua : Lua) (root : Bytes) (cfd : ℤ) (ka : KeepAlive) (fds : List ℕ)
    (next : ℕ) (input sent word path text type : Bytes) where
  -- The bytes of the answer.
  abbrev pub route_answer : Bytes
  route_answer = wire sys.commit (text_response (pos next) ka type (c_string text)) ka

  serve_routed :
      Asks cfd fds input word path
      → Answers sys lua ka path
          (pos next)
          (method_to_string (method_of unknown word))
          (closed cfd (next ∷ fds))
          (suc next)
          sent
          text
          type
      → (left : Bytes) × (serve sys lua (some root) cfd ka (calm fds next input sent)
          ≡ done tt (calm (closed cfd (next ∷ fds)) (suc next) left (sent ++ route_answer)))
  unfolding serve Job.serve_request init_request free_request Process.free_path alloc
  serve_routed s a =
      let (headers, left, parsed) =
        parse_request_accepts
          (record { cfd = cfd; method = unknown; path = null; path_length = 0; headers = [] }) word
          path s.more s.line s.rest fds next input sent s.opened s.first s.split in
      (
        left,
        rw (
          parsed,
          process_request_said sys lua root ka
              (parsed_request next (method_of unknown word) path headers) path
              (closed cfd (next ∷ fds)) (suc next) left sent route_answer s.known refl
              (virtual_path_resolv-answer sys lua path (pos next)
                (method_to_string (method_of unknown word)) ka (closed cfd (next ∷ fds)) (suc next)
                left sent a.front a.back a.route_of a.pattern a.methods a.handler text type a.funcs
                a.passed a.path_is a.matches a.meth_is a.allowed a.handler_is (a.said left)
                a.not_handled a.not_static (a.typed left) a.small a.able),
        ),
      )

  -- From the bytes of the client to the answer of a Lua handler: where nothing fails, a connection
  -- that is not kept alive, whose request line asks with a known method for a path, with plugins
  -- whose handlers return and touch nothing, ends with `THREAD_OK` and gets the status line for
  -- 200, the fixed headers, the text's type and length, an empty line and the text up to its first
  -- zero byte, and nothing else. The text is that of the first route that matches the path, with
  -- the method as the first of its methods and a handler that returns a text and touches nothing;
  -- up to its zero byte it is below 2^31 bytes, has a known type and begins with neither of the
  -- two marks, and the copied descriptor can take the response.
  pub thread_job-route_answer :
      (loader : Loader) (plugins : List Plugin) (polls : List PollResult)
      → ka.keep_alive ≡ false
      → Quiet loader
      → Asks cfd fds input word path
      → Answers sys lua ka path
          (pos next)
          (method_to_string (method_of unknown word))
          (closed cfd (next ∷ fds))
          (suc next)
          sent
          text
          type
      → (rest : Bytes) × (thread_job sys lua
            (some root)
            cfd
            loader
            plugins
            ka
            polls
            (calm fds next input sent)
          ≡ done thread_ok
              (calm (closed cfd (closed cfd (next ∷ fds))) (suc next) rest (sent ++ route_answer)))
  thread_job-route_answer loader plugins polls off quiet s a =
      let (rest, served) = serve_routed s a in
      (
        rest,
        thread_job-served sys lua root cfd ka fds next input sent loader plugins polls _ off quiet
            served,
      )
