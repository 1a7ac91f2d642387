-- ===== src/Examples/Routed.antt =====
-- A run of src/threadJob.c on a route.
use simple_http.Base.{arith, [], ◌∷◌, some, ◌≡◌, refl, Bytes, codes}
use simple_http.Base.Int.{pos, to_int}
use simple_http.Printf.{show_int}
use simple_http.Effects.{done, alloc}
use simple_http.Effects.Outcomes.{calm}
use simple_http.Mime.{mime_map, find_ext, strrchr, known, content_type}
use simple_http.Response.Head.{head}
use simple_http.Status.Table.{ok_status-Consistent}
use simple_http.Parser.{method_of}
use simple_http.Parser.Lines.{fgets, read_line, c_string}
use simple_http.Parser.Tokens.Words.{words}
use simple_http.VirtualPath
use simple_http.Plugin.{ok}
use simple_http.Examples.Plugins.{loader}
use simple_http.Job.{thread_ok, thread_job}
use simple_http.Job.Routed.{Asks, Answers, route_answer, thread_job-route_answer}
use simple_http.Examples.Routing.{plain_machine, one_shot, routes, hello_route, hello}

abbrev hi : Bytes
hi = codes "GET /hi HTTP/1.1\r\n\r\n"

hi-Asks : Asks (pos 4) (4 ∷ []) hi (codes "GET") (codes "/hi")
unfolding fgets read_line c_string words method_of
hi-Asks = record {
  line = codes "GET /hi HTTP/1.1\r\n";
  rest = codes "\r\n";
  more = codes "HTTP/1.1\r\n" ∷ [];
  opened = refl;
  first = refl;
  split = refl;
  known = λ e. cc;
}

hi-Answers :
    Answers plain_machine routes one_shot
      (codes "/hi")
      (pos 5)
      (codes "GET")
      (5 ∷ [])
      6
      []
      (codes "a.css")
      (codes "text/css")
unfolding content_type alloc known strrchr find_ext mime_map c_string head show_int to_int
hi-Answers = record {
  front = VirtualPath.other ∷ [];
  back = [];
  route_of = hello_route;
  pattern = codes "/hi";
  methods = codes "GET" ∷ [];
  handler = hello;
  funcs = refl;
  passed = (tt, tt);
  path_is = refl;
  matches = refl;
  meth_is = refl;
  allowed = refl;
  handler_is = refl;
  said = λ left. refl;
  not_handled = refl;
  not_static = refl;
  typed = λ left. refl;
  small = omega arith;
  able = record {
    live = refl;
    opened = refl;
    plain = tt;
    good = ok_status-Consistent;
    timeout_int = omega arith;
    max_int = omega arith;
    fits = omega arith;
    sized = refl;
  };
}

thread_job-route_answer_example :
    (rest : Bytes) × (thread_job plain_machine routes
        (some (codes "r"))
        (pos 4)
        loader
        []
        one_shot
        []
        (calm (4 ∷ []) 5 hi [])
      ≡ done thread_ok (
          calm (5 ∷ []) 6 rest (
            route_answer plain_machine routes
              (codes "r")
              (pos 4)
              one_shot
              (4 ∷ [])
              5
              hi
              []
              (codes "GET")
              (codes "/hi")
              (codes "a.css")
              (codes "text/css"))))
unfolding method_of
thread_job-route_answer_example =
    thread_job-route_answer plain_machine routes (codes "r") (pos 4) one_shot (4 ∷ []) 5 hi []
      (codes "GET") (codes "/hi") (codes "a.css") (codes "text/css") loader [] [] refl
      (λ file event arg w. (ok, refl)) hi-Asks hi-Answers
