-- ===== src/Examples/Files.antt =====
-- Runs of `process_request` on static files.
use simple_http.Base.{arith, true, [], length, ◌∷◌, ◌≢◌, some, ◌≡◌, refl, Bytes, codes}
use simple_http.Base.Int.{pos}
use simple_http.Printf.{show_int}
use simple_http.Parser.Lines.{c_string}
use simple_http.Base.Int.{to_int}
use simple_http.Response.{set_status}
use simple_http.Status.{lookup_status}
use simple_http.Spec.Page.{html}
use simple_http.Examples.Routing.{plain_machine, one_shot}
use simple_http.VirtualPath
use simple_http.Effects.{alloc, World, done, fault, bind}
use simple_http.Effects.Outcomes.{calm}
use simple_http.Mime.{mime_map, find_ext, strrchr, known, m_file, content_type}
use simple_http.Response.Head.{head}
use simple_http.Response.Write.Wire.{Ready, wire}
use simple_http.Status.Table.{ok_status-Consistent}
use simple_http.Parser.{unknown, get, ParseStatus, parse_ok, file_not_found, heap, literal, Request}
use simple_http.VirtualPath.{static, Handler, Route, Entry, route, table, Lua, virtual_path_resolv}
use simple_http.Spec.Page.{page_response}
use simple_http.Process.{process_request, free_request, plain, index_path}
use simple_http.Process.Static.{base_response, file_response, process_request-wire}
use simple_http.Process.Refused.{
  missing_page, process_request_missing, free_request-process_request,
}

abbrev to_static : Handler
to_static cfd method path w = done (some (codes "$!STATIC")) w

-- One route, which leaves every path to the static files.
abbrev pub static_routes : Lua
static_routes = record {
  funcs = table (
      route (record {
        path = some (codes "*");
        meth = some (codes "GET" ∷ []);
        handler = some to_static;
      })
      ∷ []);
  fnmatch = λ pattern path. true;
}

abbrev pub client : World
client = calm (4 ∷ []) 5 [] []

abbrev pub for_path : Bytes → Request
for_path path = record {
  cfd = pos 4;
  method = get;
  path = heap path;
  path_length = length path;
  headers = [];
}

pub get_known : get ≢ unknown
get_known e = cc

left_static :
    (path : Bytes)
    → virtual_path_resolv plain_machine static_routes path (pos 4) (codes "GET") one_shot client
      ≡ done static client
unfolding virtual_path_resolv VirtualPath.find_in VirtualPath.find_route VirtualPath.resolved
    VirtualPath.by_method VirtualPath.search_method VirtualPath.lua_next VirtualPath.call_if
    VirtualPath.call VirtualPath.answered VirtualPath.dispatch c_string
left_static path = refl

css_file :
    content_type plain_machine.magic m_file (codes "r/a.css") client
    ≡ done (some (codes "text/css")) client
unfolding content_type alloc known strrchr find_ext mime_map
css_file = refl

file-Ready :
    Ready []
      (file_response (for_path (codes "/a.css")) one_shot (codes "text/css") (codes "p{}"))
      one_shot
      (4 ∷ [])
unfolding head show_int to_int
file-Ready = record {
  live = refl;
  opened = refl;
  plain = tt;
  good = ok_status-Consistent;
  timeout_int = omega arith;
  max_int = omega arith;
  fits = omega arith;
  sized = refl;
}

process_request-wire_example :
    process_request plain_machine static_routes
      (some (codes "r"))
      one_shot
      (for_path (codes "/a.css"))
      client
    ≡ done
        (parse_ok, for_path (codes "/a.css"))
        (calm (4 ∷ []) 5 [] (
          wire []
            (file_response (for_path (codes "/a.css")) one_shot (codes "text/css") (codes "p{}"))
            one_shot))
process_request-wire_example =
    process_request-wire plain_machine static_routes (codes "r") one_shot
      (for_path (codes "/a.css")) (codes "/a.css") (record { is_reg = true; st_size = 3 })
      (codes "p{}") (codes "text/css") (4 ∷ []) 5 [] [] get_known refl
      (left_static (codes "/a.css")) refl refl refl refl css_file file-Ready (omega arith)

missing-Ready :
    Ready []
      (page_response
        (base_response (for_path (codes "/")) one_shot)
        (plain (pos 404) (codes "Not Found")))
      one_shot
      (4 ∷ [])
unfolding head show_int to_int set_status lookup_status html
missing-Ready = record {
  live = refl;
  opened = refl;
  plain = tt;
  good = (refl, refl, omega arith, omega arith);
  timeout_int = omega arith;
  max_int = omega arith;
  fits = omega arith;
  sized = refl;
}

process_request_missing_example :
    process_request plain_machine static_routes
      (some (codes "r"))
      one_shot
      (for_path (codes "/"))
      client
    ≡ done
        (file_not_found, record (for_path (codes "/")) { path = literal index_path })
        (calm (4 ∷ []) 5 [] (
          missing_page plain_machine static_routes
            (codes "r")
            one_shot
            (for_path (codes "/"))
            (codes "/")
            (4 ∷ [])
            5
            []
            []))
process_request_missing_example =
    process_request_missing plain_machine static_routes (codes "r") one_shot (for_path (codes "/"))
      (codes "/") (4 ∷ []) 5 [] [] get_known refl (left_static (codes "/")) refl missing-Ready

free_request-process_request_example :
    bind
      (process_request plain_machine static_routes
        (some (codes "r"))
        one_shot
        (for_path (codes "/"))
        client)
      (λ (r : ParseStatus × Request). free_request r.1)
    ≡ fault
free_request-process_request_example =
    free_request-process_request plain_machine static_routes (codes "r") one_shot
      (for_path (codes "/")) (codes "/") (4 ∷ []) 5 [] [] get_known refl (left_static (codes "/"))
      refl missing-Ready refl
