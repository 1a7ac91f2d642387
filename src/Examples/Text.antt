-- ===== src/Examples/Text.antt =====
-- Runs of src/itoa.c, src/mime_guess.c, the status table and `splitOn_c`.
use simple_http.Base.{◌∷◌, arith, ◌≢◌, [], codes, All, some, Bytes, ◌≡◌, refl}
use simple_http.Base.Int.{pos, negsuc}
use simple_http.Itoa.{itoa_base}
use simple_http.Itoa.Digits.{read_int, read_int-itoa_base}
use simple_http.Status.{Status, lookup_status, status}
use simple_http.Mime.{mime_map, find_ext, Magic}
use simple_http.Effects.{done}
use simple_http.Effects.Outcomes.{calm}
use simple_http.Parser.Tokens.{split_on_c}
use simple_http.Parser.Tokens.Words.{words, split_on_c-words}

read_int-itoa_base_example :
    (s : Bytes) × (itoa_base (negsuc 254) (pos 16) ≡ some s) × (read_int 16 s ≡ negsuc 254)
read_int-itoa_base_example =
    read_int-itoa_base (negsuc 254) 16 (omega arith) (omega arith) (omega arith)

abbrev not_found : Status
not_found = status (pos 404) (codes "404") (codes "Not Found")

found_404 : lookup_status (pos 404) ≡ some not_found
unfolding lookup_status
found_404 = refl

-- A libmagic that calls everything plain text.
abbrev plain_magic : Magic
plain_magic = record {
  magic_file = λ name. some (codes "text/plain");
  magic_buffer = λ text. some (codes "text/plain");
}

js_plain : All (λ b. b ≢ b'.') (codes "js")
js_plain = ((λ e. omega (arith, e)), ((λ e. omega (arith, e)), tt))

js_found : find_ext mime_map (codes ".js") ≡ some (codes "application/javascript")
unfolding find_ext mime_map
js_found = refl

split_on_c-words_example :
    split_on_c (codes " ") (codes "GET  /a b") (calm [] 5 [] [])
    ≡ done (codes "GET" ∷ codes "/a" ∷ codes "b" ∷ []) (calm [] 5 [] [])
unfolding words
split_on_c-words_example = split_on_c-words (codes " ") (codes "GET  /a b") [] 5 [] []
