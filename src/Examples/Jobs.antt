-- ===== src/Examples/Jobs.antt =====
-- Runs of src/threadJob.c.
use simple_http.Base.{length, ◌≤◌, arith, [], false, ◌∷◌, true, some, ◌≡◌, refl, Bytes, codes}
use simple_http.Base.Int.{IsInt, pos, to_int}
use simple_http.Printf.{show_int}
use simple_http.Effects.{done, alloc}
use simple_http.Effects.Outcomes.{calm}
use simple_http.Mime.{mime_map, find_ext, strrchr, known, content_type}
use simple_http.Response.{KeepAlive}
use simple_http.Response.Head.{head, connection}
use simple_http.Status.Table.{ok_status-Consistent}
use simple_http.Parser.{method_of}
use simple_http.Parser.Lines.{fgets, read_line, c_string}
use simple_http.Parser.Tokens.Words.{words}
use simple_http.VirtualPath
use simple_http.VirtualPath.{static, virtual_path_resolv}
use simple_http.Examples.Plugins.{loader}
use simple_http.Job.{thread_ok, ready, Revents, thread_job}
use simple_http.Job.Serve.{Serves, answer}
use simple_http.Job.Kept.{thread_job-answer}
use simple_http.Examples.Routing.{plain_machine}
use simple_http.Examples.Files.{static_routes}

abbrev thrice : KeepAlive
thrice = record { keep_alive = true; timeout = pos 5; max = pos 3 }

abbrev pub asked : Bytes
asked = codes "GET /a.css HTTP/1.1\r\n\r\n"

asked-Serves :
    (ka : KeepAlive)
    → IsInt ka.timeout
    → IsInt ka.max
    → length (connection ka) ≤ 1000
    → Serves plain_machine static_routes
        (codes "r")
        (pos 4)
        ka
        (4 ∷ [])
        5
        asked
        []
        (codes "GET")
        (codes "/a.css")
        (codes "p{}")
        (codes "text/css")
unfolding fgets read_line c_string words method_of content_type alloc known strrchr find_ext
    mime_map virtual_path_resolv VirtualPath.find_in VirtualPath.find_route VirtualPath.resolved
    VirtualPath.by_method VirtualPath.search_method VirtualPath.lua_next VirtualPath.call_if
    VirtualPath.call VirtualPath.answered VirtualPath.dispatch head show_int to_int
asked-Serves ka timeout max short = record {
  line = codes "GET /a.css HTTP/1.1\r\n";
  rest = codes "\r\n";
  more = codes "HTTP/1.1\r\n" ∷ [];
  st = record { is_reg = true; st_size = 3 };
  opened = refl;
  first = refl;
  split = refl;
  known = λ e. cc;
  routed = λ left. refl;
  there = refl;
  regular = refl;
  full = refl;
  readable = refl;
  typed = λ left. refl;
  able = record {
    live = refl;
    opened = refl;
    plain = tt;
    good = ok_status-Consistent;
    timeout_int = timeout;
    max_int = max;
    fits = omega arith;
    sized = refl;
  };
  small = omega arith;
}

thrice_short : length (connection thrice) ≤ 1000
unfolding show_int to_int connection
thrice_short = omega arith

abbrev pub brief : KeepAlive
brief = record { keep_alive = false; timeout = pos 0; max = pos 0 }

pub brief-Serves :
    Serves plain_machine static_routes
      (codes "r")
      (pos 4)
      brief
      (4 ∷ [])
      5
      asked
      []
      (codes "GET")
      (codes "/a.css")
      (codes "p{}")
      (codes "text/css")
unfolding show_int to_int connection
brief-Serves = asked-Serves brief (omega arith) (omega arith) (omega arith)

abbrev poll_in : Revents
poll_in = record {
  pollin = true;
  pollpri = false;
  pollout = false;
  pollhup = false;
  pollrdband = false;
  pollnval = false;
}

thread_job-answer_example :
    (rest : Bytes) × (thread_job plain_machine static_routes
        (some (codes "r"))
        (pos 4)
        loader
        []
        thrice
        (ready poll_in ∷ ready poll_in ∷ [])
        (calm (4 ∷ []) 5 asked [])
      ≡ done thread_ok (
          calm (5 ∷ []) 6 rest (
            answer plain_machine static_routes
              (codes "r")
              (pos 4)
              thrice
              (4 ∷ [])
              5
              asked
              []
              (codes "GET")
              (codes "/a.css")
              (codes "p{}")
              (codes "text/css"))))
thread_job-answer_example =
    thread_job-answer plain_machine static_routes (codes "r") (pos 4) thrice (4 ∷ []) 5 asked []
      (codes "GET") (codes "/a.css") (codes "p{}") (codes "text/css") loader [] 2 poll_in
      (ready poll_in ∷ []) refl refl refl refl
      (asked-Serves thrice (omega arith) (omega arith) thrice_short)
