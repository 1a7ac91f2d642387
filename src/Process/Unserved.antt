-- ===== src/Process/Unserved.antt =====
-- A request for a file that is there and is not sent: it is empty, or not a regular file.
use simple_http.Base.{
  subst, arith, ℕ, ◌≡◌, ◌≢◌, refl, ◌∙◌, true, Bool-cases, inl, inr, some, List, ◌++◌, Bytes, codes,
  if◌then◌else◌, ◌==◌,
}
use simple_http.Effects.{done}
use simple_http.Effects.Outcomes.{calm}
use simple_http.System.{System, FileStat}
use simple_http.Response.{KeepAlive}
use simple_http.Response.Write.Wire.{Ready, wire}
use simple_http.Spec.Page.{page_response, sr-page}
use simple_http.Parser.{unknown, invalid_request, parse_ok, heap, Request, method_to_string}
use simple_http.VirtualPath.{Lua, static, virtual_path_resolv}
use simple_http.Process
use simple_http.Process.{pos, process_request, served_path, replaced, plain}
use simple_http.Process.Static.{base_response, process_request_static}

module _ (sys : System) (lua : Lua) (root : Bytes) (ka : KeepAlive) (req : Request) (path : Bytes)
    (fds : List ℕ) (next : ℕ) (input sent : Bytes) where
  -- The page for an empty file.
  abbrev pub empty_page : Bytes
  empty_page =
      wire sys.commit (page_response (base_response req ka) (plain (pos 204) (codes "No Content")))
        ka

  -- Where the routes leave a request with a known method to the static files, and its file is
  -- there but is not a regular file or is empty, a calm connection that could take the page for
  -- 204 gets that page, with `PARSE_OK`, for an empty regular file, and nothing at all, with
  -- `PARSE_ERR_INVALID_REQUEST`, for any other; a path that stands for the index is left as a
  -- string literal.
  pub process_request_unserved :
      (st : FileStat)
      → req.method ≢ unknown
      → req.path ≡ heap path
      → virtual_path_resolv sys lua path req.cfd
          (method_to_string req.method)
          ka
          (calm fds next input sent)
        ≡ done static (calm fds next input sent)
      → sys.stat (root ++ served_path path) ≡ some st
      → (if st.is_reg then st.st_size == 0 else true) ≡ true
      → Ready sys.commit
          (page_response (base_response req ka) (plain (pos 204) (codes "No Content")))
          ka
          fds
      → process_request sys lua (some root) ka req (calm fds next input sent) ≡ (
          if st.is_reg
          then done
              (parse_ok, record req { path = replaced path })
              (calm fds next input (sent ++ empty_page))
          else done
              (invalid_request, record req { path = replaced path })
              (calm fds next input sent))
  unfolding Process.serve_stat Process.serve_regular Process.serve_sized Process.refuse
  process_request_unserved st hm hp hv there unserved ready =
      let (buffer, page) =
        sr-page sys (base_response req ka) (plain (pos 204) (codes "No Content")) ka fds next input
          sent (omega arith) refl ready in
      process_request_static sys lua root ka req path fds next input sent hm hp hv
      ∙ rw (there, Process.serve_stat)
          (elim (Bool-cases st.is_reg) [
            | inr special ↦ rw special refl
            | inl regular ↦
                let empty =
                  subst (λ b. (if b then st.st_size == 0 else true) ≡ true) regular unserved in
                rw (regular, empty, page) refl
          ])
