-- ===== src/Examples/Routing.antt =====
-- Runs of src/lua/virtual_path.c.
use simple_http.Base.{
  true, if◌then◌else◌, none, str_eq, [], false, ◌∷◌, some, ◌≡◌, refl, Bytes, codes,
}
use simple_http.Base.Int.{pos}
use simple_http.Effects.{done, fault}
use simple_http.Effects.Outcomes.{calm}
use simple_http.System.{System}
use simple_http.Response.{KeepAlive}
use simple_http.VirtualPath.{Handler, Route, route, other, table, Lua, virtual_path_resolv}
use simple_http.VirtualPath.Routes.{virtual_path_resolv_wrong_method}

abbrev plain_text : Bytes
plain_text = codes "text/plain"

-- A machine that calls everything plain text, and has one file, `r/a.css`.
abbrev pub plain_machine : System
plain_machine = record {
  commit = [];
  magic = record { magic_file = λ name. some plain_text; magic_buffer = λ text. none };
  fopen = λ name. if str_eq name (codes "r/a.css") then some (codes "p{}") else none;
  stat = λ name.
      if str_eq name (codes "r/a.css") then some (record { is_reg = true; st_size = 3 }) else none;
}

abbrev pub one_shot : KeepAlive
one_shot = record { keep_alive = false; timeout = pos 0; max = pos 0 }

abbrev pub hello : Handler
hello cfd method path w = done (some (codes "a.css")) w

abbrev pub hello_route : Route
hello_route = record {
  path = some (codes "/hi");
  meth = some (codes "GET" ∷ []);
  handler = some hello;
}

abbrev pub routes : Lua
routes = record { funcs = table (other ∷ route hello_route ∷ []); fnmatch = str_eq }

virtual_path_resolv_wrong_method_example :
    virtual_path_resolv plain_machine routes
      (codes "/hi")
      (pos 4)
      (codes "POST")
      one_shot
      (calm [] 5 [] [])
    ≡ fault
virtual_path_resolv_wrong_method_example =
    virtual_path_resolv_wrong_method routes (codes "/hi") (calm [] 5 [] []) plain_machine (pos 4)
      (codes "POST") one_shot (other ∷ []) [] hello_route (codes "/hi") (codes "GET" ∷ []) refl
      (tt, tt) refl refl refl refl
