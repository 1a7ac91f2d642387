-- ===== src/Socket/Protocol.antt =====
-- The names of the protocols in src/socket.c: which texts are read as which protocol.
use simple_http.Base.{
  none, str_eq, Bool, Option, if◌then◌else◌, ◌≡◌, ◌↔◌, ◌≢◌, refl, sym, ◌∙◌, ap, true, false,
  Bool-cases, inl, inr, ◌⊎◌, some, ◌++◌, Bytes, codes, length, take, str_eq_sound, str_eq_refl,
  take-length, take-append-drop, drop,
}
use simple_http.Base.Int.{pos, eq_int, ℤ}
use simple_http.Effects.{pure, ◌>>=◌, M, undefined, World, done, granted, later, alloc}
use simple_http.Socket.{http, https}

-- `strncmp(asciiz, str, strlen(asciiz)) == 0`: the comparison stops at the end of `asciiz`.
unfoldable pub is_prefix : Bytes → Bytes → Bool
is_prefix asciiz str = str_eq asciiz (take (length asciiz) str)

pub assign_if : Bool → ℤ → Option ℤ → M (Option ℤ)
assign_if false val ret = pure ret
assign_if true val none = undefined
assign_if true val (some old) = pure (some val)

-- `atoproto(asciiz)`: what the result points to, or none for NULL.
pub atoproto : Bytes → M (Option ℤ)
atoproto asciiz = do
  made ← alloc
  first ← assign_if (is_prefix asciiz (codes "http")) http (if made then some (pos 0) else none)
  assign_if (is_prefix asciiz (codes "https")) https first

unfoldable pub prototoa : ℤ → Bytes
prototoa proto =
    if eq_int proto http
    then codes "http"
    else if eq_int proto https
    then codes "https"
    else codes "unsupported porotcol"

abbrev pub IsPrefix : Bytes → Bytes → Type 0
IsPrefix s t = (rest : Bytes) × (t ≡ s ++ rest)

is_prefix-IsPrefix : (s t : Bytes) → is_prefix s t ≡ true → IsPrefix s t
unfolding is_prefix
is_prefix-IsPrefix s t h = (
  drop (length s) t,
  sym (take-append-drop (length s) t)
      ∙ ap (λ p. p ++ drop (length s) t) (sym (str_eq_sound s (take (length s) t) h)),
)

is_prefix_complete : (s rest : Bytes) → is_prefix s (s ++ rest) ≡ true
unfolding is_prefix
is_prefix_complete s rest = rw (take-length s rest) (str_eq_refl s)

not_prefix :
    (s : Bytes) → is_prefix s (codes "https") ≡ false → IsPrefix s (codes "https") → http ≡ https
not_prefix s p (rest, e) = absurd (cc (is_prefix_complete s rest, ap (λ t. is_prefix s t) e, p))

not_https : http ≢ https
not_https e = cc

-- The result is HTTPS exactly where the text is a prefix of `https`, and HTTP otherwise.
pub atoproto_lem :
    (asciiz : Bytes) (w : World)
    → granted w.allocs ≡ true
    → (proto : ℤ) × (atoproto asciiz w ≡ done (some proto) (record w { allocs = later w.allocs }))
      × ((proto ≡ https) ↔ IsPrefix asciiz (codes "https"))
      × ((proto ≡ https) ⊎ (proto ≡ http))
unfolding atoproto alloc assign_if
atoproto_lem asciiz w memory = elim (Bool-cases (is_prefix asciiz (codes "https"))) [
  | inl p ↦ elim (Bool-cases (is_prefix asciiz (codes "http"))) [
    | inl q ↦ (https, rw (memory, q, p), (λ _. is_prefix-IsPrefix asciiz _ p, λ _. refl), inl refl)
    | inr q ↦ (https, rw (memory, q, p), (λ _. is_prefix-IsPrefix asciiz _ p, λ _. refl), inl refl)
  ]
  | inr p ↦ elim (Bool-cases (is_prefix asciiz (codes "http"))) [
    | inl q ↦ (http, rw (memory, q, p), (λ e. absurd (not_https e), not_prefix asciiz p), inr refl)
    | inr q ↦ (http, rw (memory, q, p), (λ e. absurd (not_https e), not_prefix asciiz p), inr refl)
  ]
]
