-- ===== src/VirtualPath/Answer.antt =====
-- What `virtual_path_resolv` sends for a handler that returns a text.
use simple_http.Base.{
  ℕ, ◌^◌, ◌<◌, ◌≡◌, refl, ap, ◌∙◌, true, false, Option, none, some, List, [], ◌∷◌, ◌++◌, Bytes,
  codes, All, str_eq, take, take_all, length, arith,
}
use simple_http.Base.Int.{ℤ, pos, to_int, to_int-IsInt, to_int_small}
use simple_http.Printf.{show_int}
use simple_http.Effects.{done, bind, alloc_or_fatal}
use simple_http.Effects.Outcomes.{calm}
use simple_http.System.{System}
use simple_http.Mime.{m_buffer, content_type}
use simple_http.Status.{ok_status, lookup_status}
use simple_http.Response.{KeepAlive, Response, new_response}
use simple_http.Response.Payload.{
  type_header, length_header, add_header-calm, set_payload-calm, to_base_show,
}
use simple_http.Response.Write.Wire.{Ready, wire, write_response-wire}
use simple_http.Parser.Lines.{c_string}
use simple_http.VirtualPath
use simple_http.VirtualPath.{
  ok_lookup, handled, static, Handler, Route, Entry, route, Funcs, table, Lua, virtual_path_resolv,
}
use simple_http.VirtualPath.Routes.{
  Passes, find_route-first, first_method_is, search_method-first_method_is,
}

-- The response with a text.
abbrev pub text_response : ℤ → KeepAlive → Bytes → Bytes → Response
text_response cfd ka type payload = record {
  cfd = cfd;
  status = ok_status;
  keep_alive = some ka;
  headers = type_header type ∷ length_header (length payload) ∷ [];
  payload = some payload;
  len = length payload;
  buffer = [];
}

module _ (sys : System) (cfd : ℤ) (ka : KeepAlive) (payload type : Bytes) (fds : List ℕ) (next : ℕ)
    (input sent : Bytes) where
  abbrev blank : Response
  blank = record (text_response cfd ka type payload) { headers = []; payload = none; len = 0 }

  new_blank :
      new_response cfd (lookup_status (pos 200)) (some ka) (calm fds next input sent)
      ≡ done blank (calm fds next input sent)
  unfolding new_response lookup_status alloc_or_fatal
  new_blank = refl

  pub respond-calm :
      content_type sys.magic m_buffer payload (calm fds next input sent)
        ≡ done (some type) (calm fds next input sent)
      → length payload < 2 ^ 31
      → Ready sys.commit (text_response cfd ka type payload) ka fds
      → VirtualPath.respond sys cfd ka payload (calm fds next input sent)
        ≡ done ok_lookup
            (calm fds next input (sent ++ wire sys.commit (text_response cfd ka type payload) ka))
  unfolding VirtualPath.respond VirtualPath.type_header
  respond-calm typed small ready = rw (
    typed,
    new_blank,
    add_header-calm blank (codes "Content-Type") type fds next input sent,
    to_base_show (to_int (length payload)) (calm fds next input sent)
        (to_int-IsInt (length payload)),
    add_header-calm (record blank { headers = type_header type ∷ [] }) (codes "Content-Length")
        (show_int (to_int (length payload))) fds next input sent,
    ap VirtualPath.size_of_int (to_int_small (length payload) small),
    set_payload-calm
        (record blank { headers = type_header type ∷ length_header (length payload) ∷ [] }) payload
        (length payload) fds next input sent (omega arith),
    take_all (length payload) payload (omega arith),
    write_response-wire sys.commit (text_response cfd ka type payload) ka fds next input sent ready,
  )

module _ (sys : System) (lua : Lua) (path : Bytes) (cfd : ℤ) (method : Bytes) (ka : KeepAlive)
    (fds : List ℕ) (next : ℕ) (input sent : Bytes) where
  call_calm :
      (f : Handler) (o : Option Handler) (ms : Option (List Bytes)) (methods : List Bytes)
      → o ≡ some f
      → ms ≡ some methods
      → first_method_is method methods ≡ true
      → VirtualPath.by_method sys cfd ka method path o ms (calm fds next input sent)
        ≡ bind (f cfd method path (calm fds next input sent)) (VirtualPath.answered sys cfd ka)
  call_calm f none ms methods e m there = cc
  call_calm f (some g) none methods e m there = cc
  call_calm f (some g) (some ks) methods e m there =
      let present : first_method_is method ks ≡ true = cc in
      unfold VirtualPath.by_method VirtualPath.call_if VirtualPath.call in
      rw (search_method-first_method_is method ks (calm fds next input sent) present) (
        ap
          (λ (o : Option Handler).
            VirtualPath.call sys cfd ka method path o (calm fds next input sent))
          e)

  -- The first route that matches the path, with the method among its methods and a handler that
  -- returns a text and touches nothing, answers for the request: a calm connection that can take
  -- the response gets the status line for 200, the fixed headers, the text's type and length, an
  -- empty line and the text up to its first zero byte. The text up to there is below 2^31 bytes,
  -- has a known type and begins with neither of the two marks.
  pub virtual_path_resolv-answer :
      (front back : List Entry) (r : Route) (pattern : Bytes) (methods : List Bytes) (f : Handler)
      (text type : Bytes)
      → lua.funcs ≡ table (front ++ route r ∷ back)
      → All (Passes lua path) front
      → r.path ≡ some pattern
      → lua.fnmatch pattern path ≡ true
      → r.meth ≡ some methods
      → first_method_is method methods ≡ true
      → r.handler ≡ some f
      → f cfd method path (calm fds next input sent) ≡ done (some text) (calm fds next input sent)
      → str_eq (take 9 (c_string text)) (codes "$!HANDELD") ≡ false
      → str_eq (take 8 (c_string text)) (codes "$!STATIC") ≡ false
      → content_type sys.magic m_buffer (c_string text) (calm fds next input sent)
        ≡ done (some type) (calm fds next input sent)
      → length (c_string text) < 2 ^ 31
      → Ready sys.commit (text_response cfd ka type (c_string text)) ka fds
      → virtual_path_resolv sys lua path cfd method ka (calm fds next input sent)
        ≡ done ok_lookup (
            calm fds next input
              (sent ++ wire sys.commit (text_response cfd ka type (c_string text)) ka))
  unfolding virtual_path_resolv VirtualPath.find_in VirtualPath.resolved VirtualPath.answered
      VirtualPath.dispatch
  virtual_path_resolv-answer front back r pattern methods f text type t hs e h m there hf said
        not_handled not_static typed small ready =
      ap
        (λ (fs : Funcs).
          bind (VirtualPath.find_in lua path fs (calm fds next input sent))
            (VirtualPath.resolved sys cfd ka method path))
        t
      ∙ rw (
        find_route-first lua path (calm fds next input sent) front back r pattern hs e h,
        call_calm f r.handler r.meth methods hf m there,
        said,
        not_handled,
        not_static,
        respond-calm sys cfd ka (c_string text) type fds next input sent typed small ready,
      )
