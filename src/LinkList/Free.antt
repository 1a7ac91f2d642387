-- ===== src/LinkList/Free.antt =====
-- `free_list` frees each node once.
use simple_http.Base.{
  ℕ, zero, suc, ◌≤◌, ◌≡◌, refl, sym, ◌∙◌, Option, none, some, List, [], ◌∷◌, ◌++◌, length, map,
  append-nil, append_assoc, arith,
}
use simple_http.LinkList.{Node, Heap, update, free_nodes, free_list}
use simple_http.LinkList.Chain.{
  Entry, head_addr, Chain, Avoids, Distinct, IsList, update_self, update_ne, Chain-update,
}

module _ {ℓ} {A : Type ℓ} where
  abbrev pub payloads : List (Entry A) → List A
  payloads = map (λ e. e.payload)

  abbrev pub Gone : (ℕ → Option (Node A)) → List (Entry A) → Type ℓ
  Gone cell [] = Unit
  Gone cell (e ∷ es) = (cell e.addr ≡ none) × Gone cell es

  -- The nodes of a list are freed, in order, and no other address is touched.
  pub record Freed (h : Heap A) (es : List (Entry A)) (r : Option (Heap A)) : Type ℓ where
    pub after : Heap A
    pub result : r ≡ some after
    pub gone : Gone after.cell es
    pub handed : after.freed ≡ h.freed ++ payloads es
    pub others : (q : ℕ) → Avoids q es → after.cell q ≡ h.cell q

  free_nodes-Freed :
      (f : ℕ) (h : Heap A) (prev : Option ℕ) (es : List (Entry A))
      → length es ≤ f
      → Chain h.cell prev es
      → Distinct es
      → Freed h es (free_nodes f (head_addr es) h)
  unfolding free_nodes
  free_nodes-Freed zero h prev [] le _ _ = record {
    after = h;
    result = refl;
    gone = tt;
    handed = sym (append-nil h.freed);
    others = λ q _. refl;
  }
  free_nodes-Freed (suc f) h prev [] le _ _ = record {
    after = h;
    result = refl;
    gone = tt;
    handed = sym (append-nil h.freed);
    others = λ q _. refl;
  }
  free_nodes-Freed zero h prev (e ∷ es) le _ _ = absurd (omega arith)
  free_nodes-Freed (suc f) h prev (e ∷ es) le (here, c) (av, d) =
      let h' : Heap A = record h {
        cell = update h.cell e.addr none;
        freed = h.freed ++ e.payload ∷ [];
      } in
      let ih =
        free_nodes-Freed f h' (some e.addr) es (omega arith)
          (Chain-update h.cell e.addr none (some e.addr) es av c) d in
      record {
        after = ih.after;
        result = rw (here, free_nodes) ih.result;
        gone = (ih.others e.addr av ∙ update_self h.cell e.addr none, ih.gone);
        handed = rw append_assoc at ih.handed;
        others = λ q (ne, qs). ih.others q qs ∙ update_ne h.cell e.addr q none (λ r. ne (sym r));
      }

  -- On a well-formed list `free_list` reads no freed node, frees every node once, in the order of
  -- the list, hands the data to `freeFunc` in that order, and touches no other node.
  pub free_list-Freed :
      (h : Heap A) (es : List (Entry A)) → IsList h es → Freed h es (free_list (head_addr es) h)
  unfolding free_list
  free_list-Freed h es l = free_nodes-Freed h.fresh h none es l.short l.chain l.distinct
