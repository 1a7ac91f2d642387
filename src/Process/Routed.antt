-- ===== src/Process/Routed.antt =====
-- A request that the routes answer.
use simple_http.Base.{ℕ, ◌≡◌, ◌≢◌, ◌∙◌, ap, some, List, ◌++◌, Bytes}
use simple_http.Effects.{done}
use simple_http.Effects.Outcomes.{calm}
use simple_http.System.{System}
use simple_http.Response.{KeepAlive}
use simple_http.Parser.{unknown, UriPath, heap, method_to_string, Request, parse_ok}
use simple_http.VirtualPath.{Lua, ok_lookup, virtual_path_resolv}
use simple_http.Process
use simple_http.Process.{process_request}
use simple_http.Process.Static.{process_method_lem, new_response-calm}

-- A request that the routes answer by `said`.
pub process_request_said :
    (sys : System) (lua : Lua) (root : Bytes) (ka : KeepAlive) (req : Request) (path : Bytes)
    (fds : List ℕ) (next : ℕ) (input sent said : Bytes)
    → req.method ≢ unknown
    → req.path ≡ heap path
    → virtual_path_resolv sys lua path req.cfd
        (method_to_string req.method)
        ka
        (calm fds next input sent)
      ≡ done ok_lookup (calm fds next input (sent ++ said))
    → process_request sys lua (some root) ka req (calm fds next input sent)
      ≡ done (parse_ok, req) (calm fds next input (sent ++ said))
unfolding process_request Process.process_uri Process.process_path Process.by_lookup
process_request_said sys lua root ka req path fds next input sent said hm hp hv =
    process_method_lem sys lua root ka req req.method (calm fds next input sent) hm
    ∙ ap (λ (p : UriPath). Process.process_uri sys lua root ka req p (calm fds next input sent)) hp
    ∙ rw (hv, new_response-calm req ka fds next input (sent ++ said))
