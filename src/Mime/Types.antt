-- ===== src/Mime/Types.antt =====
-- What `content_type` answers.
use simple_http.Base.{
  ℕ, ◌-◌, ◌≢◌, ◌≡◌, refl, none, some, List, [], ◌∷◌, ◌++◌, Bytes, length, take, All, ==_ne, ==_refl,
}
use simple_http.Printf.{snprintf}
use simple_http.Effects.{done, alloc}
use simple_http.Effects.Outcomes.{calm}
use simple_http.Mime.{Magic, MType, mime_map, strrchr, find_ext, known, ask, content_type}

strrchr-none : (s : Bytes) (c : ℕ) → All (λ b. b ≢ c) s → strrchr s c ≡ none
unfolding strrchr
strrchr-none [] c _ = refl
strrchr-none (b ∷ s) c (nb, ns) = rw (strrchr-none s c ns, ==_ne b c nb)

-- `strrchr` finds the tail from the last occurrence on.
pub strrchr_last :
    (front tail : Bytes) (c : ℕ)
    → All (λ b. b ≢ c) tail
    → strrchr (front ++ c ∷ tail) c ≡ some (c ∷ tail)
unfolding strrchr
strrchr_last [] tail c h = rw (strrchr-none tail c h, ==_refl c)
strrchr_last (b ∷ front) tail c h = rw (strrchr_last front tail c h)

-- Where memory suffices, a name that ends in an extension of the table, with no dot in it, gets
-- the type of the table, whatever libmagic would say and whatever stands before the extension.
pub content_type_known :
    (magic : Magic) (type : MType) (front ext : Bytes) {name : Bytes} (fds : List ℕ) (next : ℕ)
    (input sent : Bytes)
    → All (λ b. b ≢ b'.') ext
    → find_ext mime_map (b'.' ∷ ext) ≡ some name
    → content_type magic type (front ++ b'.' ∷ ext) (calm fds next input sent)
      ≡ done (some name) (calm fds next input sent)
unfolding content_type alloc known
content_type_known magic type front ext fds next input sent plain hit =
    rw (strrchr_last front ext b'.' plain, hit)

-- Where memory suffices and the table has no type for the payload, the guess of libmagic is
-- returned without its last byte: the block has no room for the terminator.
pub content_type_guess :
    (magic : Magic) (type : MType) (payload : Bytes) {text : Bytes} (fds : List ℕ) (next : ℕ)
    (input sent : Bytes)
    → known payload ≡ none
    → ask magic type payload ≡ some text
    → content_type magic type payload (calm fds next input sent)
      ≡ done (some (take (length text - 1) text)) (calm fds next input sent)
unfolding content_type alloc snprintf
content_type_guess magic type payload fds next input sent miss said = rw (miss, said)
