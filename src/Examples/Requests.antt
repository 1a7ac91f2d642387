-- ===== src/Examples/Requests.antt =====
-- Runs of src/parser.c.
use simple_http.Base.{Bytes, List, ◌≡◌, codes, false, true, [], arith, ◌∷◌, refl}
use simple_http.Base.Int.{pos}
use simple_http.Effects.{World, done}
use simple_http.Effects.Outcomes.{calm}
use simple_http.Parser.Lines.{fgets, read_line, c_string}
use simple_http.Parser.Tokens.Words.{words}
use simple_http.Parser.Accepts.{parse_request_accepts, parse_request_rejects}
use simple_http.Parser.{parse_ok, invalid_request, method_of, heap}
use simple_http.Effects.Returns.{Returns}
use simple_http.Parser
use simple_http.Parser.{Request, parse_request, unknown, null, valid, dangling}
use simple_http.Parser.Headers.{Stores, read_headers-Stores}
use simple_http.Parser.Descriptors.{Ended, parse_request-Ended}

-- A client on descriptor 4; the third allocation fails.
abbrev waiting : World
waiting = record {
  allocs = true ∷ true ∷ false ∷ [];
  writes = [];
  dups = [];
  fds = 4 ∷ [];
  next_fd = 5;
  input = codes "GET /a HTTP/1.1\r\nHost: b\r\n\r\n";
  sent = [];
}

abbrev request : Request
request = record { cfd = pos 4; method = unknown; path = null; path_length = 0; headers = [] }

parse_request-Ended_example : Returns (Ended request waiting) (parse_request request waiting)
parse_request-Ended_example = parse_request-Ended request waiting (omega arith, tt) refl tt

read_headers-Stores_example :
    Returns
      (Stores waiting)
      (Parser.read_headers (record { v1 = dangling; v2 = dangling } ∷ []) waiting)
read_headers-Stores_example =
    read_headers-Stores (record { v1 = dangling; v2 = dangling } ∷ []) waiting ((refl, refl), tt)

parse_request_accepts_example :
    (headers : List Parser.PairSs) × (left : Bytes) × (parse_request request
        (calm (4 ∷ []) 5 (codes "GET /a HTTP/1.1\r\nHost: b\r\n\r\n") [])
      ≡ done
          (
            parse_ok,
            record request {
              cfd = pos 5;
              method = method_of unknown (codes "GET");
              path = heap (codes "/a");
              path_length = 2;
              headers = headers;
            },
          )
          (calm (5 ∷ []) 6 left []))
unfolding fgets read_line c_string words
parse_request_accepts_example =
    parse_request_accepts request (codes "GET") (codes "/a") (codes "HTTP/1.1\r\n" ∷ [])
      (codes "GET /a HTTP/1.1\r\n") (codes "Host: b\r\n\r\n") (4 ∷ []) 5
      (codes "GET /a HTTP/1.1\r\nHost: b\r\n\r\n") [] refl refl refl

parse_request_rejects_example :
    parse_request request (calm (4 ∷ []) 5 (codes "HELLO\nx") [])
    ≡ done (invalid_request, request) (calm [] 5 (codes "x") [])
unfolding fgets read_line c_string words
parse_request_rejects_example =
    parse_request_rejects request (codes "HELLO\n") (codes "x") (4 ∷ []) 5 (codes "HELLO\nx") []
      refl refl tt
