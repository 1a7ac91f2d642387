-- ===== src/Process/Refused.antt =====
-- A request for a static file that is not there.
use simple_http.Base.{arith, ℕ, ◌≡◌, ◌≢◌, refl, ap, ◌∙◌, true, none, some, List, ◌++◌, Bytes, codes}
use simple_http.Effects.{done, fault, bind}
use simple_http.Effects.Outcomes.{calm}
use simple_http.System.{System}
use simple_http.Response.{KeepAlive}
use simple_http.Response.Write.Wire.{Ready, wire}
use simple_http.Spec.Page.{page_response, sr-page}
use simple_http.Parser.{
  unknown, file_not_found, ParseStatus, UriPath, heap, literal, Request, method_to_string,
}
use simple_http.VirtualPath.{Lua, static, virtual_path_resolv}
use simple_http.Process
use simple_http.Process.{
  pos, process_request, free_request, served_path, replaced, plain, is_index, index_path,
}
use simple_http.Process.Static.{base_response, process_request_static}

module _ (sys : System) (lua : Lua) (root : Bytes) (ka : KeepAlive) (req : Request) (path : Bytes)
    (fds : List ℕ) (next : ℕ) (input sent : Bytes) where
  -- The page for a file that is not there.
  abbrev pub missing_page : Bytes
  missing_page =
      wire sys.commit (page_response (base_response req ka) (plain (pos 404) (codes "Not Found")))
        ka

  -- Where the routes leave a request with a known method to the static files, and its file is not
  -- there, a calm connection that can take the page gets the page for 404, and nothing else. The
  -- result is `PARSE_ERR_FILE_NOT_FOUND`; a path that stands for the index is left as a string
  -- literal.
  pub process_request_missing :
      req.method ≢ unknown
      → req.path ≡ heap path
      → virtual_path_resolv sys lua path req.cfd
          (method_to_string req.method)
          ka
          (calm fds next input sent)
        ≡ done static (calm fds next input sent)
      → sys.stat (root ++ served_path path) ≡ none
      → Ready sys.commit
          (page_response (base_response req ka) (plain (pos 404) (codes "Not Found")))
          ka
          fds
      → process_request sys lua (some root) ka req (calm fds next input sent)
        ≡ done
            (file_not_found, record req { path = replaced path })
            (calm fds next input (sent ++ missing_page))
  unfolding Process.serve_stat Process.refuse
  process_request_missing hm hp hv gone ready =
      let (buffer, page) =
        sr-page sys (base_response req ka) (plain (pos 404) (codes "Not Found")) ka fds next input
          sent (omega arith) refl ready in
      process_request_static sys lua root ka req path fds next input sent hm hp hv
      ∙ rw (gone, Process.serve_stat, page)

  -- Where the routes leave a request with a known method to the static files, its path stands for
  -- the index, the index is not there and a calm connection can take the page, `free_request`
  -- behind `process_request` hands a string literal to `free`.
  pub free_request-process_request :
      req.method ≢ unknown
      → req.path ≡ heap path
      → virtual_path_resolv sys lua path req.cfd
          (method_to_string req.method)
          ka
          (calm fds next input sent)
        ≡ done static (calm fds next input sent)
      → sys.stat (root ++ served_path path) ≡ none
      → Ready sys.commit
          (page_response (base_response req ka) (plain (pos 404) (codes "Not Found")))
          ka
          fds
      → is_index path ≡ true
      → bind
          (process_request sys lua (some root) ka req (calm fds next input sent))
          (λ (r : ParseStatus × Request). free_request r.1)
        ≡ fault
  unfolding free_request Process.free_path
  free_request-process_request hm hp hv gone ready index =
      let left : replaced path ≡ literal index_path = rw index in
      rw (process_request_missing hm hp hv gone ready) (
        ap (λ (p : UriPath). Process.free_path p (calm fds next input (sent ++ missing_page))) left)
