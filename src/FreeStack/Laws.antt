-- ===== src/FreeStack/Laws.antt =====
-- The stack against a list of pointers, newest first.
use simple_http.Base.{
  suc-sub-one, suc-==-zero, inr, ltb→lt, tests, inl, Bool-cases, ==_ne, ℕ, zero, suc, ◌≤◌, ◌<◌, ◌≡◌,
  ◌≢◌, refl, false, none, some, List, [], ◌∷◌, ltb, length, get_elem?, arith, All, length-replicate,
}
use simple_http.FreeStack.{
  stack_count, FreeStack, empty, Outcome, ok, quit, out_of_bounds, store, save_ptr, pop_ptr, drain,
}

-- The first n cells, the last of them first.
abbrev pub newest : ℕ → List ℕ → List ℕ → List ℕ
newest zero xs acc = acc
newest (suc n) [] acc = acc
newest (suc n) (x ∷ xs) acc = newest n xs (x ∷ acc)

-- The array has its declared length, and `top` lies in it.
pub record IsStack (s : FreeStack) : Type 0 where
  pub cells : length s.ptrs ≡ stack_count
  pub within : s.top ≤ stack_count

-- The pointers that wait to be freed.
abbrev pub contents : FreeStack → List ℕ
contents s = newest s.top s.ptrs []

-- A store at the top.
store_top :
    (xs : List ℕ) (n v : ℕ) (acc : List ℕ)
    → n < length xs
    → (ys : List ℕ) × (store xs n v ≡ some ys)
      × (length ys ≡ length xs)
      × (newest (suc n) ys acc ≡ v ∷ newest n xs acc)
store_top [] n v acc h = elim h [ ]
store_top (x ∷ xs) zero v acc h = (v ∷ xs, refl, refl, refl)
store_top (x ∷ xs) (suc n) v acc h =
    let (ys, stored, same, top) = store_top xs n v (x ∷ acc) (omega arith) in
    (x ∷ ys, rw stored, omega (arith, same), top)

get_top :
    (xs : List ℕ) (n : ℕ) (acc : List ℕ)
    → n < length xs
    → (p : ℕ) × (get_elem? xs n ≡ some p) × (newest (suc n) xs acc ≡ p ∷ newest n xs acc)
get_top [] n acc h = elim h [ ]
get_top (x ∷ xs) zero acc h = (x, refl, refl)
get_top (x ∷ xs) (suc n) acc h = get_top xs n (x ∷ acc) (omega arith)

store_past : (xs : List ℕ) (n v : ℕ) → length xs ≤ n → store xs n v ≡ none
store_past [] n v h = refl
store_past (x ∷ xs) zero v h = absurd (omega arith)
store_past (x ∷ xs) (suc n) v h = rw (store_past xs n v (omega arith))

-- What `save_ptr` does to a stack, by how full it is.
abbrev pub Saves : ℕ → FreeStack → Outcome FreeStack → Type 0
Saves p s (ok t) = (s.top < stack_count) × IsStack t × (contents t ≡ p ∷ contents s)
Saves p s quit = ⊥
Saves p s out_of_bounds = s.top ≡ stack_count

-- On a stack within its array `save_ptr` pushes the pointer where a cell is free, and on a full
-- one it stores behind the array; it never quits.
pub save_ptr-Saves : (p : ℕ) (s : FreeStack) → IsStack s → Saves p s (save_ptr p s)
unfolding save_ptr
save_ptr-Saves p s i = elim (Bool-cases (ltb s.top stack_count)) [
  | inl room ↦
      let (ys, stored, same, top) =
        store_top s.ptrs s.top p [] (omega (tests, i.cells, ltb→lt s.top stack_count room)) in
      rw (guard, stored)
        (
          ltb→lt s.top stack_count room,
          record { cells = omega (arith, same, i.cells); within = omega (tests, room) },
          top,
        )
  | inr full ↦
      let at_end : s.top ≡ stack_count = ground (arith, i.within) in
      rw (guard, store_past s.ptrs s.top p (omega (arith, at_end, i.cells))) at_end
]
  where
    guard : ltb stack_count s.top ≡ false
    guard = ground (arith, i.within)

-- What `pop_ptr` does to a stack.
abbrev pub Pops : List ℕ → Outcome (ℕ × FreeStack) → Type 0
Pops [] (ok (p, t)) = (p ≡ 0) × IsStack t × (contents t ≡ [])
Pops (x ∷ xs) (ok (p, t)) = (p ≡ x) × IsStack t × (contents t ≡ xs)
Pops _ _ = ⊥

pop_ptr_top :
    (n p : ℕ) (xs : List ℕ)
    → get_elem? xs n ≡ some p
    → pop_ptr (record { top = suc n; ptrs = xs }) ≡ ok (p, record { top = n; ptrs = xs })
unfolding pop_ptr
pop_ptr_top n p xs read = rw (suc-==-zero n, suc-sub-one n, read) (rw suc-sub-one)

pop_ptr_at :
    (n : ℕ) (xs : List ℕ)
    → IsStack (record { top = n; ptrs = xs })
    → Pops (newest n xs []) (pop_ptr (record { top = n; ptrs = xs }))
pop_ptr_at zero xs i = unfold pop_ptr in (refl, i, refl)
pop_ptr_at (suc n) xs i =
    let (p, read, top) = get_top xs n [] (omega (arith, i.cells, i.within)) in
    rw (top, pop_ptr_top n p xs read)
      (refl, record { cells = i.cells; within = omega (arith, i.within) }, refl)

-- `pop_ptr` takes the newest pointer off a stack within its array, or returns NULL where there is
-- none.
pub pop_ptr-Pops : (s : FreeStack) → IsStack s → Pops (contents s) (pop_ptr s)
pop_ptr-Pops s i = pop_ptr_at s.top s.ptrs i

-- `drain` gives the pointers back newest first, and leaves an empty stack.
drain_at :
    (f n : ℕ) (xs : List ℕ)
    → n < f
    → IsStack (record { top = n; ptrs = xs })
    → All (λ p. p ≢ 0) (newest n xs [])
    → drain f (record { top = n; ptrs = xs }) ≡ ok (newest n xs [], record { top = 0; ptrs = xs })
unfolding drain
drain_at zero n xs h i live = elim h [ ]
drain_at (suc f) zero xs h i live = unfold pop_ptr in refl
drain_at (suc f) (suc n) xs h i live =
    let (p, read, top) = get_top xs n [] (omega (arith, i.cells, i.within)) in
    let below : IsStack (record { top = n; ptrs = xs }) = record {
      cells = i.cells;
      within = omega (arith, i.within);
    } in
    let (here, rest) = rw top at live in
    rw (
      top,
      drain,
      pop_ptr_top n p xs read,
      ==_ne p 0 here,
      drain_at f n xs (omega arith) below rest,
    )

-- Where no NULL was saved, the loop of the quit handler frees every saved pointer once, the newest
-- first, and leaves the stack empty.
pub drain-contents :
    (s : FreeStack)
    → IsStack s
    → All (λ p. p ≢ 0) (contents s)
    → drain (suc stack_count) s ≡ ok (contents s, record s { top = 0 })
drain-contents s i live = drain_at (suc stack_count) s.top s.ptrs (omega (arith, i.within)) i live

pub empty-IsStack : IsStack empty
empty-IsStack = record { cells = length-replicate {A = ℕ} stack_count 0; within = omega arith }
