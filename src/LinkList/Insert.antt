-- ===== src/LinkList/Insert.antt =====
-- `insert_node` appends.
use simple_http.Base.{
  Bool, Bool-cases, inr, inl, false, ◌&&◌, ◌⊎◌, ℕ, zero, suc, ◌<◌, ◌≡◌, ◌≢◌, refl, true, Option,
  none, some, List, [], ◌∷◌, ◌++◌, length, length-append, arith, sym, ◌∙◌,
}
use simple_http.LinkList.{
  Node, Heap, update, place, walk, set_prev, set_next, link, attach, insert_node,
}
use simple_http.Effects.{granted, later}
use simple_http.LinkList.Chain.{
  Entry, head_addr, last_addr, last_node, Chain, Avoids, IsList, Chain-update, Chain-last,
  Avoids-last, update_self, update_ne, Chain-snoc, Avoids-of_Below, Below-suc, Below-snoc,
  Distinct-snoc,
}

module _ {ℓ} {A : Type ℓ} where
  walk-last :
      (f : ℕ) (h : Heap A) (prev : Option ℕ) (e : Entry A) (es : List (Entry A))
      → Chain h.cell prev (e ∷ es)
      → length es < f
      → walk f e.addr h ≡ some (last_addr e.addr es)
  unfolding walk
  walk-last zero h prev e es c lt = elim lt [ ]
  walk-last (suc f) h prev e [] (here, _) lt = rw (here, walk)
  walk-last (suc f) h prev e (x ∷ xs) (here, c) lt =
      rw (here, walk) (walk-last f h (some e.addr) x xs c (omega arith))

  -- The entry that a successful insertion adds.
  abbrev pub entry : Heap A → A → ℕ → Entry A
  entry h d size = record { addr = h.fresh; size = size; payload = d }

  set_prev_lem :
      (p v : ℕ) (h : Heap A) (n : Node A)
      → h.cell p ≡ some n
      → set_prev p v h
        ≡ some (record h { cell = update h.cell p (some (record n { prev = some v })) })
  unfolding set_prev
  set_prev_lem p v h n e = rw (e, set_prev)

  set_next_lem :
      (p v : ℕ) (h : Heap A) (n : Node A)
      → h.cell p ≡ some n
      → set_next p v h
        ≡ some (record h { cell = update h.cell p (some (record n { next = some v })) })
  unfolding set_next
  set_next_lem p v h n e = rw (e, set_next)

  module _ (h : Heap A) (d : A) (size : ℕ) (e : Entry A) (es : List (Entry A)) where
    -- The last address, and the heap after each of the two stores that link the new node in.
    abbrev tail_addr : ℕ
    tail_addr = last_addr e.addr es

    abbrev prev_set : Heap A
    unfolding place
    prev_set = record (place d size h).1 {
      cell =
          update (place d size h).1.cell h.fresh
            (some (record { size = size; payload = d; next = none; prev = some tail_addr }));
    }

    abbrev linked : Heap A
    unfolding place
    linked = record prev_set {
      cell =
          update prev_set.cell tail_addr
            (some (record (last_node none e es) { next = some h.fresh }));
    }

    link_lem :
        IsList h (e ∷ es) → link e.addr h.fresh (place d size h).1 ≡ some (some e.addr, linked)
    unfolding link place
    link_lem l = rw (walked, prev_ok, next_ok, link)
      where
        apart : Avoids h.fresh (e ∷ es)
        apart = Avoids-of_Below h.fresh (e ∷ es) l.below

        walked : walk (suc h.fresh) e.addr (place d size h).1 ≡ some tail_addr
        walked =
            walk-last (suc h.fresh) (place d size h).1 none e es
              (Chain-update h.cell h.fresh _ none (e ∷ es) apart l.chain) (omega (arith, l.short))

        prev_ok : set_prev h.fresh tail_addr (place d size h).1 ≡ some prev_set
        prev_ok = set_prev_lem h.fresh tail_addr _ _ (update_self h.cell h.fresh _)

        next_ok : set_next tail_addr h.fresh prev_set ≡ some linked
        next_ok = set_next_lem tail_addr h.fresh prev_set _ (
            update_ne _ h.fresh tail_addr _ (Avoids-last h.fresh e es apart)
            ∙ update_ne _ h.fresh tail_addr _ (Avoids-last h.fresh e es apart)
            ∙ Chain-last h.cell none e es l.chain)

    linked-IsList : IsList h (e ∷ es) → IsList linked (e ∷ es ++ entry h d size ∷ [])
    unfolding place
    linked-IsList l = record {
      chain =
          Chain-snoc h.cell linked.cell (entry h d size) none e es l.chain l.distinct apart
            (update_self _ tail_addr _)
            (update_ne _ tail_addr h.fresh _ (λ q. Avoids-last h.fresh e es apart (sym q))
              ∙ update_self _ h.fresh _)
            same;
      distinct = Distinct-snoc (e ∷ es) (entry h d size) l.distinct apart;
      below =
          Below-snoc (suc h.fresh) (e ∷ es) (entry h d size) (Below-suc h.fresh (e ∷ es) l.below)
            (omega arith);
      short = omega (arith, length-append es (entry h d size ∷ []), l.short);
    }
      where
        apart : Avoids h.fresh (e ∷ es)
        apart = Avoids-of_Below h.fresh (e ∷ es) l.below

        same : (q : ℕ) → q ≢ tail_addr → q ≢ h.fresh → linked.cell q ≡ h.cell q
        same q not_tail not_new =
            update_ne _ tail_addr q _ (λ r. not_tail (sym r))
            ∙ update_ne _ h.fresh q _ (λ r. not_new (sym r))
            ∙ update_ne _ h.fresh q _ (λ r. not_new (sym r))

  place-IsList :
      (h : Heap A) (d : A) (size : ℕ)
      → IsList h []
      → IsList (place d size h).1 (entry h d size ∷ [])
  unfolding place
  place-IsList h d size l = record {
    chain = (update_self h.cell h.fresh _, tt);
    distinct = (tt, tt);
    below = (omega arith, tt);
    short = omega arith;
  }

  -- What an insertion that finds memory does to a list.
  pub record Inserted (h : Heap A) (es : List (Entry A)) (d : A) (size : ℕ) (left : List Bool)
      (r : Option (Option ℕ × Heap A)) : Type ℓ where
    pub after : Heap A
    pub result : r ≡ some (head_addr (es ++ entry h d size ∷ []), after)
    pub holds : IsList after (es ++ entry h d size ∷ [])
    pub kept : after.freed ≡ h.freed
    pub asked : after.allocs ≡ left

  attach-Inserted :
      (h : Heap A) (es : List (Entry A)) (d : A) (size : ℕ)
      → IsList h es
      → Inserted h es d size h.allocs (attach (head_addr es) (place d size h))
  unfolding attach place
  attach-Inserted h [] d size l = record {
    after = (place d size h).1;
    result = refl;
    holds = place-IsList h d size l;
    kept = refl;
    asked = refl;
  }
  attach-Inserted h (e ∷ es) d size l = record {
    after = linked h d size e es;
    result = link_lem h d size e es l;
    holds = linked-IsList h d size e es l;
    kept = refl;
    asked = refl;
  }

  -- With memory for the node and its data, `insert_node` of data of at least one byte puts the
  -- data behind the nodes of a well-formed list and keeps every other node, and the list stays
  -- well formed, with its `prev` and `next` links: the head changes only where the list was empty.
  pub insert_node-Inserted :
      (h : Heap A) (es : List (Entry A)) (d : A) (size : ℕ)
      → IsList h es
      → granted h.allocs ≡ true
      → granted (later h.allocs) ≡ true
      → Inserted h es d
          (suc size)
          (later (later h.allocs))
          (insert_node (head_addr es) (some d) (suc size) h)
  unfolding insert_node
  insert_node-Inserted h es d size l first second =
      rw (first, second)
        (let i =
            attach-Inserted (record h { allocs = later (later h.allocs) }) es d (suc size) l' in
          record {
            after = i.after;
            result = i.result;
            holds = i.holds;
            kept = i.kept;
            asked = i.asked;
          })
    where
      l' : IsList (record h { allocs = later (later h.allocs) }) es
      l' = record { chain = l.chain; distinct = l.distinct; below = l.below; short = l.short }

  -- With nothing to copy, or without memory for the node or its data, the list and its head are as
  -- before.
  pub insert_node_refused :
      (h : Heap A) (head : Option ℕ) (d : Option A) (size : ℕ)
      → (d ≡ none) ⊎ ((size ≡ 0) ⊎ (granted h.allocs && granted (later h.allocs) ≡ false))
      → (h' : Heap A) × (insert_node head d size h ≡ some (head, h'))
        × (h'.cell ≡ h.cell)
        × (h'.fresh ≡ h.fresh)
        × (h'.freed ≡ h.freed)
  unfolding insert_node
  insert_node_refused h head none size c = (h, refl, refl, refl, refl)
  insert_node_refused h head (some d) zero c = (h, refl, refl, refl, refl)
  insert_node_refused h head (some d) (suc size) (inl e) = cc
  insert_node_refused h head (some d) (suc size) (inr (inl e)) = absurd (omega arith)
  insert_node_refused h head (some d) (suc size) (inr (inr e)) =
      elim (Bool-cases (granted h.allocs)) [
        | inl first ↦
            let second : granted (later h.allocs) ≡ false = rw first at e in
            (record h { allocs = later (later h.allocs) }, rw (first, second), refl, refl, refl)
        | inr first ↦ (record h { allocs = later h.allocs }, rw first, refl, refl, refl)
      ]
