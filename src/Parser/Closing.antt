-- ===== src/Parser/Closing.antt =====
-- What `close` and `dup` do to the connection's descriptors.
use simple_http.Base.{
  ==_ne, ap, Option, none, some, Bool-cases, inl, ℕ, ◌<◌, ◌≡◌, ◌≢◌, refl, ◌∙◌, Bool, true, false,
  List, [], ◌∷◌, ◌==◌, if◌then◌else◌, arith, inr, All, ==_refl,
}
use simple_http.Base.Int.{ℤ, pos, negsuc}
use simple_http.Effects.{World, done, is_open, without, close, dup, granted}
use simple_http.Effects.Returns.{Returns}
use simple_http.Parser.Headers.{Reads}

-- No descriptor has the number that `dup` would return, or a greater one.
abbrev pub Below : ℕ → List ℕ → Type 0
Below n = All (λ fd. fd < n)

pub is_open-without :
    (m n : ℕ) (fds : List ℕ)
    → is_open (pos m) (without n fds) ≡ (if n == m then false else is_open (pos m) fds)
is_open-without m n [] = ground arith
is_open-without m n (fd ∷ fds) = ground (arith, is_open-without m n fds)

pub not_open : (n : ℕ) (fds : List ℕ) → Below n fds → is_open (pos n) fds ≡ false
not_open n [] _ = refl
not_open n (fd ∷ fds) (lt, b) = ground (arith, not_open n fds b)

-- The descriptors behind `close`.
abbrev pub closed : ℤ → List ℕ → List ℕ
closed (negsuc n) fds = fds
closed (pos n) fds = without n fds

pub close-closed :
    (fd : ℤ) (w : World) → (b : Bool) × (close fd w ≡ done b (record w { fds = closed fd w.fds }))
unfolding close
close-closed (negsuc n) w = (false, refl)
close-closed (pos n) w = (_, refl)

pub is_open-closed : (fd : ℤ) (fds : List ℕ) → is_open fd (closed fd fds) ≡ false
is_open-closed (negsuc n) fds = refl
is_open-closed (pos n) fds = is_open-without n n fds ∙ rw (==_refl n)

-- What `dup` gives: a new descriptor beside the open ones, or nothing.
abbrev pub Copied : ℤ → World → Option ℤ → World → Type 0
Copied fd u none u' = (u'.fds ≡ u.fds) × (u'.sent ≡ u.sent)
Copied fd u (some new) u' =
    (u'.fds ≡ u.next_fd ∷ u.fds)
    × (u'.sent ≡ u.sent)
    × (new ≡ pos u.next_fd)
    × (is_open fd u.fds ≡ true)

pub dup-Copied : (fd : ℤ) (u : World) → Returns (Copied fd u) (dup fd u)
unfolding dup
dup-Copied fd u = elim (Bool-cases (is_open fd u.fds)) [
  | inr o ↦ rw o (refl, refl)
  | inl o ↦ elim (Bool-cases (granted u.dups)) [
    | inl g ↦ rw (o, g) (refl, refl, refl, o)
    | inr g ↦ rw (o, g) (refl, refl)
  ]
]

-- The descriptor that `dup` made stays open where the old one is closed.
pub new-is_open :
    (fd : ℤ) (n : ℕ) (fds : List ℕ)
    → Below n fds
    → is_open fd fds ≡ true
    → is_open (pos n) (closed fd (n ∷ fds)) ≡ true
new-is_open (negsuc m) n fds below o = rw (==_refl n)
new-is_open (pos m) n fds below o =
    let other : m ≢ n = λ e. cc (o, not_open n fds below, ap (λ k. is_open (pos k) fds) e) in
    rw (is_open-without n m (n ∷ fds), ==_ne m n other, ==_refl n)

pub Below-moved : {u u' : World} → Reads u u' → Below u.next_fd u.fds → Below u'.next_fd u'.fds
Below-moved reads below = rw (reads.fds, reads.next_fd) below
