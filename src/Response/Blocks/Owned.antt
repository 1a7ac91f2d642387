-- ===== src/Response/Blocks/Owned.antt =====
-- What a response owns, and `free_response`, which gives it back.
use simple_http.Base.{ℕ, ◌+◌, ◌≡◌, refl, Option, none, some, List, [], ◌∷◌, ◌++◌, arith}
use simple_http.Effects.{World, done}
use simple_http.Response.Blocks.{
  Store, HeaderBlocks, Blocks, free_headers, free_response, free_option,
}
use simple_http.Response.Blocks.Account.{one, Holds, free_lem}

-- What a response owns.
unfoldable pub of_option : ℕ → Option ℕ → ℕ
of_option x none = 0
of_option x (some b) = one x b

unfoldable pub of_headers : ℕ → List HeaderBlocks → ℕ
of_headers x [] = 0
of_headers x (h ∷ hs) =
    one x h.name + (one x h.value + (one x h.data_block + (one x h.node + of_headers x hs)))

pub of_headers_append :
    (x : ℕ) (hs : List HeaderBlocks) (h : HeaderBlocks)
    → of_headers x (hs ++ h ∷ [])
      ≡ one x h.name + one x h.value + one x h.data_block + one x h.node + of_headers x hs
unfolding of_headers
of_headers_append x [] h = omega arith
of_headers_append x (g ∷ hs) h = let ih = of_headers_append x hs h in omega (arith, ih)

abbrev pub owned : ℕ → Blocks → ℕ
owned x res =
    one x res.response + one x res.buffer + of_option x res.payload + of_headers x res.headers

free_option_lem :
    (p : Option ℕ) (k : ℕ → ℕ) (s : Store)
    → Holds (λ x. of_option x p + k x) s
    → (s' : Store) × ((w : World) → free_option p s w ≡ done s' w) × Holds k s'
unfolding free_option of_option Holds
free_option_lem none k s h = (s, (λ w. refl), (λ x. let q = h x in omega (arith, q)))
free_option_lem (some b) k s h = free_lem b k s h

free_headers_lem :
    (hs : List HeaderBlocks) (k : ℕ → ℕ) (s : Store)
    → Holds (λ x. of_headers x hs + k x) s
    → (s' : Store) × ((w : World) → free_headers hs s w ≡ done s' w) × Holds k s'
unfolding free_headers of_headers Holds
free_headers_lem [] k s h = (s, (λ w. refl), (λ x. let q = h x in omega (arith, q)))
free_headers_lem (h ∷ hs) k s l =
    let (s1, r1, l1) =
      free_lem h.name
        (λ x. one x h.value + (one x h.data_block + (one x h.node + (of_headers x hs + k x)))) s
        (λ x. let q = l x in omega (arith, q)) in
    let (s2, r2, l2) =
      free_lem h.value (λ x. one x h.data_block + (one x h.node + (of_headers x hs + k x))) s1 l1 in
    let (s3, r3, l3) = free_lem h.data_block (λ x. one x h.node + (of_headers x hs + k x)) s2 l2 in
    let (s4, r4, l4) = free_lem h.node (λ x. of_headers x hs + k x) s3 l3 in
    let (s5, r5, l5) = free_headers_lem hs k s4 l4 in
    (s5, (λ w. rw (r1 w, r2 w, r3 w, r4 w, r5 w)), l5)

pub free_response_lem :
    (res : Blocks) (k : ℕ → ℕ) (s : Store)
    → Holds (λ x. owned x res + k x) s
    → (s' : Store) × ((w : World) → free_response res s w ≡ done s' w) × Holds k s'
unfolding free_response Holds
free_response_lem res k s h =
    let (s1, r1, l1) =
      free_headers_lem res.headers
        (λ x. one x res.buffer + (of_option x res.payload + (one x res.response + k x))) s
        (λ x. let q = h x in omega (arith, q)) in
    let (s2, r2, l2) =
      free_lem res.buffer (λ x. of_option x res.payload + (one x res.response + k x)) s1 l1 in
    let (s3, r3, l3) = free_option_lem res.payload (λ x. one x res.response + k x) s2 l2 in
    let (s4, r4, l4) = free_lem res.response k s3 l3 in (s4, (λ w. rw (r1 w, r2 w, r3 w, r4 w)), l4)
