-- ===== src/Response/Blocks/Account.antt =====
-- The account of a response's blocks: what is allocated is what the response owns and a rest, each
-- block as often in the one as in the other.
use simple_http.Base.{
  ==_iff, ==_refl, ◌<◌, ℕ, ◌+◌, ◌≡◌, false, Bool-cases, inl, inr, some, List, [], ◌∷◌, ◌++◌, ◌==◌,
  if◌then◌else◌, arith, ap,
}
use simple_http.Effects.{World, done}
use simple_http.Response.Blocks.{Store, remove, free, give_back}

unfoldable pub one : ℕ → ℕ → ℕ
one x y = if y == x then 1 else 0

-- How often a block stands in a list.
unfoldable pub count : ℕ → List ℕ → ℕ
count x [] = 0
count x (y ∷ ys) = one x y + count x ys

pub count_append : (x : ℕ) (xs ys : List ℕ) → count x (xs ++ ys) ≡ count x xs + count x ys
unfolding count
count_append x [] ys = omega arith
count_append x (y ∷ xs) ys = let ih = count_append x xs ys in omega (arith, ih)

one_other : (b y : ℕ) → (y == b) ≡ false → one b y ≡ 0
unfolding one
one_other b y e = rw e

one_self : (b : ℕ) → one b b ≡ 1
unfolding one
one_self b = rw (==_refl b)

-- A block that stands in the list is removed once.
remove_lem :
    (b : ℕ) (xs : List ℕ)
    → 0 < count b xs
    → (ys : List ℕ) × (remove b xs ≡ some ys) × ((x : ℕ) → count x xs ≡ one x b + count x ys)
unfolding count remove
remove_lem b [] h = absurd (omega (arith, h))
remove_lem b (y ∷ ys) h = elim (Bool-cases (y == b)) [
  | inl e ↦ (ys, rw e, (λ x. ap (λ k. one x k + count x ys) ((==_iff y b).0 e)))
  | inr e ↦
      let o = one_other b y e in
      let (zs, r, c) = remove_lem b ys (omega (arith, h, o)) in
      (y ∷ zs, rw (e, r), (λ x. let q = c x in omega (arith, q)))
]

-- Each block stands as often among the allocated ones as it is counted.
unfoldable pub Holds : (ℕ → ℕ) → Store → Type 0
Holds k s = (x : ℕ) → count x s.live ≡ k x

pub free_lem :
    (b : ℕ) (k : ℕ → ℕ) (s : Store)
    → Holds (λ x. one x b + k x) s
    → (s' : Store) × ((w : World) → free b s w ≡ done s' w) × Holds k s'
unfolding free give_back Holds
free_lem b k s h =
    let q = h b in
    let o = one_self b in
    let (ys, r, c) = remove_lem b s.live (omega (arith, q, o)) in
    (record s { live = ys }, (λ w. rw r), (λ x. let p = c x in let i = h x in omega (arith, p, i)))
