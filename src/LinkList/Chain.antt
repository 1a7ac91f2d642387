-- ===== src/LinkList/Chain.antt =====
-- When a heap holds a list: the nodes in order, each with its neighbours' addresses.
use simple_http.Base.{
  ==_refl, ℕ, suc, ◌≤◌, ◌<◌, ◌≡◌, ◌≢◌, sym, ◌∙◌, Option, none, some, List, [], ◌∷◌, ◌++◌, length,
  arith, ==_ne,
}
use simple_http.LinkList.{Node, Heap, update}

pub record Entry {ℓ} (A : Type ℓ) : Type ℓ where
  pub addr : ℕ
  pub size : ℕ
  pub payload : A

module _ {ℓ} {A : Type ℓ} where
  abbrev pub head_addr : List (Entry A) → Option ℕ
  head_addr [] = none
  head_addr (e ∷ es) = some e.addr

  -- `first` is the address before the entries, for which `last_addr` is the answer where none is.
  abbrev pub last_addr : ℕ → List (Entry A) → ℕ
  last_addr first [] = first
  last_addr first (e ∷ es) = last_addr e.addr es

  abbrev pub node : Entry A → Option ℕ → Option ℕ → Node A
  node e next prev = record { size = e.size; payload = e.payload; next = next; prev = prev }

  abbrev pub Chain : (ℕ → Option (Node A)) → Option ℕ → List (Entry A) → Type ℓ
  Chain cell prev [] = Unit
  Chain cell prev (e ∷ es) =
      (cell e.addr ≡ some (node e (head_addr es) prev)) × Chain cell (some e.addr) es

  abbrev pub Avoids : ℕ → List (Entry A) → Type ℓ
  Avoids a [] = Unit
  Avoids a (e ∷ es) = (a ≢ e.addr) × Avoids a es

  abbrev pub Distinct : List (Entry A) → Type ℓ
  Distinct [] = Unit
  Distinct (e ∷ es) = Avoids e.addr es × Distinct es

  abbrev pub Below : ℕ → List (Entry A) → Type ℓ
  Below n [] = Unit
  Below n (e ∷ es) = (e.addr < n) × Below n es

  -- The heap holds the entries as a well-formed doubly linked list.
  pub record IsList (h : Heap A) (es : List (Entry A)) : Type ℓ where
    pub chain : Chain h.cell none es
    pub distinct : Distinct es
    pub below : Below h.fresh es
    pub short : length es ≤ h.fresh

  pub update_self : (f : ℕ → Option (Node A)) (p : ℕ) (v : Option (Node A)) → update f p v p ≡ v
  unfolding update
  update_self f p v = rw (==_refl p)

  pub update_ne :
      (f : ℕ → Option (Node A)) (p q : ℕ) (v : Option (Node A)) → p ≢ q → update f p v q ≡ f q
  unfolding update
  update_ne f p q v ne = rw (==_ne p q ne)

  pub Chain-update :
      (cell : ℕ → Option (Node A)) (a : ℕ) (v : Option (Node A)) (prev : Option ℕ)
      (es : List (Entry A))
      → Avoids a es
      → Chain cell prev es
      → Chain (update cell a v) prev es
  Chain-update cell a v prev [] _ _ = tt
  Chain-update cell a v prev (e ∷ es) (ne, av) (here, c) =
      (update_ne cell a e.addr v ne ∙ here, Chain-update cell a v (some e.addr) es av c)

  pub Avoids-last :
      (a : ℕ) (e : Entry A) (es : List (Entry A)) → Avoids a (e ∷ es) → a ≢ last_addr e.addr es
  Avoids-last a e [] (ne, _) = ne
  Avoids-last a e (x ∷ xs) (_, av) = Avoids-last a x xs av

  pub Avoids-of_Below : (n : ℕ) (es : List (Entry A)) → Below n es → Avoids n es
  Avoids-of_Below n [] _ = tt
  Avoids-of_Below n (e ∷ es) (lt, b) = (omega arith, Avoids-of_Below n es b)

  pub Below-suc : (n : ℕ) (es : List (Entry A)) → Below n es → Below (suc n) es
  Below-suc n [] _ = tt
  Below-suc n (e ∷ es) (lt, b) = (omega arith, Below-suc n es b)

  pub Below-snoc :
      (n : ℕ) (es : List (Entry A)) (e : Entry A) → Below n es → e.addr < n → Below n (es ++ e ∷ [])
  Below-snoc n [] e _ h = (h, tt)
  Below-snoc n (x ∷ xs) e (lt, b) h = (lt, Below-snoc n xs e b h)

  pub Avoids-snoc :
      (a : ℕ) (es : List (Entry A)) (e : Entry A)
      → Avoids a es
      → a ≢ e.addr
      → Avoids a (es ++ e ∷ [])
  Avoids-snoc a [] e _ h = (h, tt)
  Avoids-snoc a (x ∷ xs) e (ne, av) h = (ne, Avoids-snoc a xs e av h)

  pub Distinct-snoc :
      (es : List (Entry A)) (e : Entry A) → Distinct es → Avoids e.addr es → Distinct (es ++ e ∷ [])
  Distinct-snoc [] e _ _ = (tt, tt)
  Distinct-snoc (x ∷ xs) e (av, d) (ne, as_) =
      (Avoids-snoc x.addr xs e av (λ q. ne (λ i. sym q i)), Distinct-snoc xs e d as_)

  abbrev pub last_node : Option ℕ → Entry A → List (Entry A) → Node A
  last_node prev e [] = node e none prev
  last_node prev e (x ∷ xs) = last_node (some e.addr) x xs

  pub Chain-last :
      (cell : ℕ → Option (Node A)) (prev : Option ℕ) (e : Entry A) (es : List (Entry A))
      → Chain cell prev (e ∷ es)
      → cell (last_addr e.addr es) ≡ some (last_node prev e es)
  Chain-last cell prev e [] (here, _) = here
  Chain-last cell prev e (x ∷ xs) (_, c) = Chain-last cell (some e.addr) x xs c

  -- A heap that differs from one with the chain at the last node and at the new one only.
  pub Chain-snoc :
      (cell cell' : ℕ → Option (Node A)) (new : Entry A) (prev : Option ℕ) (e : Entry A)
      (es : List (Entry A))
      → Chain cell prev (e ∷ es)
      → Distinct (e ∷ es)
      → Avoids new.addr (e ∷ es)
      → cell' (last_addr e.addr es) ≡ some (record (last_node prev e es) { next = some new.addr })
      → cell' new.addr ≡ some (node new none (some (last_addr e.addr es)))
      → ((q : ℕ) → q ≢ last_addr e.addr es → q ≢ new.addr → cell' q ≡ cell q)
      → Chain cell' prev (e ∷ es ++ new ∷ [])
  Chain-snoc cell cell' new prev e [] (here, _) _ _ tail fresh same = (tail, (fresh, tt))
  Chain-snoc cell cell' new prev e (x ∷ xs) (here, c) (av, d) (ne, as_) tail fresh same = (
    same e.addr (Avoids-last e.addr x xs av) (λ q. ne (sym q)) ∙ here,
    Chain-snoc cell cell' new (some e.addr) x xs c d as_ tail fresh same,
  )
