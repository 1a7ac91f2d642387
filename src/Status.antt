-- ===== src/Status.antt =====
-- src/write_response.h: the status table, and `lookup_status` of src/write_response.c.
pub mod Table
use simple_http.Base.{
  ℕ, zero, suc, ◌≡◌, refl, Bool, true, false, Option, none, some, List, [], ◌∷◌, Bytes, codes, ◌==◌,
  if◌then◌else◌, get_elem?,
}
use simple_http.Base.Int.{ℤ, pos, negsuc, eq_int}

-- `map_t` with its key `pair_is_t`.
pub record Status : Type 0 where
  pub p1 : ℤ
  pub p2 : Bytes
  pub value : Bytes

abbrev pub status : ℤ → Bytes → Bytes → Status
status c t v = record { p1 = c; p2 = t; value = v }

abbrev pub ok_status : Status
ok_status = status (pos 200) (codes "200") (codes "Ok")

-- The entry with the key 0 ends the table.
unfoldable pub status_map : List Status
status_map =
    ok_status
    ∷ status (pos 201) (codes "201") (codes "Created")
    ∷ status (pos 204) (codes "204") (codes "No Content")
    ∷ status (pos 206) (codes "206") (codes "Partial Content")
    ∷ status (pos 301) (codes "301") (codes "Moved Permanently")
    ∷ status (pos 302) (codes "302") (codes "Found")
    ∷ status (pos 304) (codes "304") (codes "Not Modified")
    ∷ status (pos 307) (codes "307") (codes "Temporary Redirect")
    ∷ status (pos 308) (codes "308") (codes "Permanent Redirect")
    ∷ status (pos 400) (codes "400") (codes "Bad Request")
    ∷ status (pos 404) (codes "404") (codes "Not Found")
    ∷ status (pos 405) (codes "405") (codes "Method Not Allowed")
    ∷ status (pos 408) (codes "408") (codes "Request Timeout")
    ∷ status (pos 409) (codes "409") (codes "Conflict")
    ∷ status (pos 411) (codes "411") (codes "Length Required")
    ∷ status (pos 413) (codes "413") (codes "Payload Too Large")
    ∷ status (pos 414) (codes "414") (codes "URI Too Long")
    ∷ status (pos 415) (codes "415") (codes "Unsupported Media Type")
    ∷ status (pos 416) (codes "416") (codes "Range Not Satisfiable")
    ∷ status (pos 417) (codes "417") (codes "Expectation Failed")
    ∷ status (pos 429) (codes "429") (codes "Too Many Requests")
    ∷ status (pos 500) (codes "500") (codes "Internal Server Error")
    ∷ status (pos 501) (codes "501") (codes "Not Implemented")
    ∷ status (pos 505) (codes "505") (codes "HTTP Version Not Supported")
    ∷ status (pos 0) [] []
    ∷ []

-- The loop over the table.
unfoldable pub lookup_from : List Status → ℤ → Option Status
lookup_from [] code = none
lookup_from (s ∷ rest) code =
    let later = lookup_from rest code in
    if eq_int s.p1 (pos 0) then none else if eq_int s.p1 code then some s else later

unfoldable pub lookup_status : ℤ → Option Status
unfolding lookup_from status_map
lookup_status code = lookup_from status_map code
