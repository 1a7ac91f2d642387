-- ===== src/Examples/Answers.antt =====
-- Runs of src/write_response.c and src/spec.h.
use simple_http.Base.{
  ℕ, length-replicate, replicate, str_eq, if◌then◌else◌, length, ◌++◌, codes, false, true, some,
  ◌∷◌, Bytes, none, arith, [], ◌≡◌, refl,
}
use simple_http.Base.Int.{to_int, pos}
use simple_http.Printf.{show_int, Plain}
use simple_http.Status.{ok_status, lookup_status}
use simple_http.Status.Table.{ok_status-Consistent}
use simple_http.Mime.{mime_map, find_ext, strrchr, known, m_file, content_type}
use simple_http.Response.Write.Limits.{facing, send_short, put_headers-overflow}
use simple_http.Effects.{wrote, fault, alloc, done}
use simple_http.Effects.Outcomes.{calm}
use simple_http.System.{System}
use simple_http.Response.{set_status, KeepAlive, Response}
use simple_http.Response.Head.{head, gen_header, gen_header-head}
use simple_http.Response.Write.{send, put_headers, write_response}
use simple_http.Response.Write.Loop.{header_lines}
use simple_http.Response.Write.Wire.{Ready, wire, returned, write_response-wire}
use simple_http.Spec.{SpecResponse, sr}
use simple_http.Spec.Page.{html, page_response, sr-page}

abbrev commit : Bytes
commit = codes "1a2b"

commit-Plain : Plain commit
commit-Plain = (
  (λ e. omega (arith, e)),
  ((λ e. omega (arith, e)), ((λ e. omega (arith, e)), ((λ e. omega (arith, e)), tt))),
)

abbrev settings : KeepAlive
settings = record { keep_alive = true; timeout = pos 5; max = pos 100 }

abbrev once : KeepAlive
once = record { keep_alive = false; timeout = pos 0; max = pos 0 }

abbrev greeting : Response
greeting = record {
  cfd = pos 4;
  status = ok_status;
  keep_alive = some once;
  headers = record { name = codes "X-A"; value = codes "b" } ∷ [];
  payload = some (codes "hi");
  len = 2;
  buffer = [];
}

gen_header-head_example :
    gen_header commit ok_status (some settings) (calm [] 5 [] [])
    ≡ done
        (record {
          text = head commit ok_status settings;
          count = length (head commit ok_status settings);
        })
        (calm [] 5 [] [])
gen_header-head_example =
    gen_header-head commit ok_status settings [] 5 [] [] commit-Plain ok_status-Consistent
      (omega arith) (omega arith)

greeting-Ready : Ready commit greeting once (4 ∷ [])
unfolding head show_int
greeting-Ready = record {
  live = refl;
  opened = refl;
  plain = commit-Plain;
  good = ok_status-Consistent;
  timeout_int = omega arith;
  max_int = omega arith;
  fits = omega arith;
  sized = refl;
}

write_response-wire_example :
    write_response commit greeting (calm (4 ∷ []) 5 [] (codes "old"))
    ≡ done
        (
          returned commit greeting once,
          record greeting { buffer = head commit ok_status once ++ header_lines greeting.headers },
        )
        (calm (4 ∷ []) 5 [] (codes "old" ++ wire commit greeting once))
write_response-wire_example =
    write_response-wire commit greeting once (4 ∷ []) 5 [] (codes "old") greeting-Ready

-- One file, which libmagic is not asked about.
abbrev machine : System
machine = record {
  commit = commit;
  magic = record { magic_file = λ name. none; magic_buffer = λ text. none };
  fopen = λ name. if str_eq name (codes "a.css") then some (codes "p{}") else none;
  stat = λ name. none;
}

css_type :
    content_type machine.magic m_file (codes "a.css") (calm [] 5 [] [])
    ≡ done (some (codes "text/css")) (calm [] 5 [] [])
unfolding content_type alloc known strrchr find_ext mime_map
css_type = refl

abbrev missing : SpecResponse
missing = record { status = pos 404; text = codes "Not Found"; mode = none }

abbrev blank : Response
blank = record greeting { headers = []; payload = none; len = 0 }

page-Ready : Ready commit (page_response blank missing) once (4 ∷ [])
unfolding head show_int set_status lookup_status html to_int
page-Ready = record {
  live = refl;
  opened = refl;
  plain = commit-Plain;
  good = (refl, refl, omega arith, omega arith);
  timeout_int = omega arith;
  max_int = omega arith;
  fits = omega arith;
  sized = refl;
}

sr-page_example :
    (buffer : Bytes) × (sr machine blank missing (calm (4 ∷ []) 5 [] [])
      ≡ done
          (
            returned commit (page_response blank missing) once,
            record (page_response blank missing) { buffer = buffer },
          )
          (calm (4 ∷ []) 5 [] (wire commit (page_response blank missing) once)))
sr-page_example = sr-page machine blank missing once (4 ∷ []) 5 [] [] (omega arith) refl page-Ready

send_short_example :
    send 3 (pos 4) (codes "abc") 7 (facing (wrote 1) (calm (4 ∷ []) 5 [] []))
    ≡ done 8 (calm (4 ∷ []) 5 [] (codes "a"))
send_short_example =
    send_short (wrote 1) 2 (pos 4) b'a' (codes "bc") 7 (4 ∷ []) 5 [] [] refl (omega arith)

unfoldable filler : ℕ → Bytes
filler n = replicate n 0

length-filler : (n : ℕ) → length (filler n) ≡ n
unfolding filler
length-filler n = length-replicate {A = ℕ} n 0

-- The buffer has one byte left.
put_headers-overflow_example :
    put_headers greeting.headers (filler 1048575) 0 (calm [] 5 [] []) ≡ fault
put_headers-overflow_example =
    put_headers-overflow greeting.headers (filler 1048575) 0 (calm [] 5 [] [])
      (omega (arith, length-filler 1048575)) (omega (arith, length-filler 1048575))
