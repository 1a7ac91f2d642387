-- ===== src/Examples/Unserved.antt =====
-- Runs of `process_request` on a file that is empty.
use simple_http.Base.{arith, true, [], ◌∷◌, some, ◌≡◌, if◌then◌else◌, refl, codes}
use simple_http.Base.Int.{pos, to_int}
use simple_http.Printf.{show_int}
use simple_http.Effects.{done}
use simple_http.Effects.Outcomes.{calm}
use simple_http.System.{System, FileStat}
use simple_http.Response.{set_status}
use simple_http.Response.Head.{head}
use simple_http.Response.Write.Wire.{Ready}
use simple_http.Status.{lookup_status}
use simple_http.Spec.Page.{html, page_response}
use simple_http.Parser.{parse_ok, invalid_request}
use simple_http.Parser.Lines.{c_string}
use simple_http.VirtualPath
use simple_http.VirtualPath.{static, virtual_path_resolv}
use simple_http.Process.{process_request, plain, replaced}
use simple_http.Process.Static.{base_response}
use simple_http.Process.Unserved.{empty_page, process_request_unserved}
use simple_http.Examples.Routing.{plain_machine, one_shot}
use simple_http.Examples.Files.{static_routes, client, for_path, get_known}

abbrev empty_file : FileStat
empty_file = record { is_reg = true; st_size = 0 }

-- A machine where every file is empty.
abbrev empty_machine : System
empty_machine = record plain_machine { stat = λ name. some empty_file }

left_static :
    virtual_path_resolv empty_machine static_routes
      (codes "/a")
      (pos 4)
      (codes "GET")
      one_shot
      client
    ≡ done static client
unfolding virtual_path_resolv VirtualPath.find_in VirtualPath.find_route VirtualPath.resolved
    VirtualPath.by_method VirtualPath.search_method VirtualPath.lua_next VirtualPath.call_if
    VirtualPath.call VirtualPath.answered VirtualPath.dispatch c_string
left_static = refl

empty-Ready :
    Ready []
      (page_response
        (base_response (for_path (codes "/a")) one_shot)
        (plain (pos 204) (codes "No Content")))
      one_shot
      (4 ∷ [])
unfolding head show_int to_int set_status lookup_status html
empty-Ready = record {
  live = refl;
  opened = refl;
  plain = tt;
  good = (refl, refl, omega arith, omega arith);
  timeout_int = omega arith;
  max_int = omega arith;
  fits = omega arith;
  sized = refl;
}

process_request_unserved_example :
    process_request empty_machine static_routes
      (some (codes "r"))
      one_shot
      (for_path (codes "/a"))
      client
    ≡ (if empty_file.is_reg
        then done
            (parse_ok, record (for_path (codes "/a")) { path = replaced (codes "/a") })
            (calm (4 ∷ []) 5 [] (
              empty_page empty_machine static_routes
                (codes "r")
                one_shot
                (for_path (codes "/a"))
                (codes "/a")
                (4 ∷ [])
                5
                []
                []))
        else done
            (invalid_request, record (for_path (codes "/a")) { path = replaced (codes "/a") })
            client)
process_request_unserved_example =
    process_request_unserved empty_machine static_routes (codes "r") one_shot
      (for_path (codes "/a")) (codes "/a") (4 ∷ []) 5 [] [] empty_file get_known refl left_static
      refl refl empty-Ready
