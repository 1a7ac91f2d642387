-- ===== src/LinkList/Refines.antt =====
-- `insert_node` on the heap against `insert_node` as its callers see it.
use simple_http.Base.{ℕ, suc, ◌≡◌, refl, Option, some, List, [], ◌∷◌, ◌++◌, Bool-cases, inl, inr}
use simple_http.Effects
use simple_http.Effects.{World, done, granted, later, alloc}
use simple_http.LinkList.{Heap, insert_node}
use simple_http.LinkList.Chain.{Entry, IsList, head_addr}
use simple_http.LinkList.Insert.{entry, insert_node-Inserted}
use simple_http.LinkList.Free.{payloads}

payloads-snoc :
    {A : Type 0} (es : List (Entry A)) (e : Entry A)
    → payloads (es ++ e ∷ []) ≡ payloads es ++ e.payload ∷ []
payloads-snoc [] e = refl
payloads-snoc (x ∷ xs) e = rw (payloads-snoc xs e)

-- The heap after an insertion holds the list that the callers get from the same allocations.
pub record Refined {A : Type 0} (h : Heap A) (es : List (Entry A)) (d : A)
    (r : Option (Option ℕ × Heap A)) : Type 0 where
  pub after : Heap A
  pub entries : List (Entry A)
  pub result : r ≡ some (head_addr entries, after)
  pub holds : IsList after entries
  pub seen :
      (w : World)
      → Effects.insert_node (payloads es) d (record w { allocs = h.allocs })
        ≡ done (payloads entries) (record w { allocs = after.allocs })

-- On a well-formed list, whatever memory does, `insert_node` of data of at least one byte on the
-- heap leaves a well-formed list with the payloads, and with the allocations to come, that its
-- callers' view of it gives: the data behind the others, or the list as it was.
pub insert_node-Refined :
    {A : Type 0} (h : Heap A) (es : List (Entry A)) (d : A) (size : ℕ)
    → IsList h es
    → Refined h es d (insert_node (head_addr es) (some d) (suc size) h)
insert_node-Refined h es d size l = elim (Bool-cases (granted h.allocs)) [
  | inr first ↦ record {
    after = record h { allocs = later h.allocs };
    entries = es;
    result = unfold insert_node in rw first;
    holds = record { chain = l.chain; distinct = l.distinct; below = l.below; short = l.short };
    seen = λ w. unfold Effects.insert_node alloc in rw first;
  }
  | inl first ↦ elim (Bool-cases (granted (later h.allocs))) [
    | inr second ↦ record {
      after = record h { allocs = later (later h.allocs) };
      entries = es;
      result = unfold insert_node in rw (first, second);
      holds = record { chain = l.chain; distinct = l.distinct; below = l.below; short = l.short };
      seen = λ w. unfold Effects.insert_node alloc in rw (first, second);
    }
    | inl second ↦
        let i = insert_node-Inserted h es d size l first second in
        record {
          after = i.after;
          entries = es ++ entry h d (suc size) ∷ [];
          result = i.result;
          holds = i.holds;
          seen = λ w.
              rw (i.asked, payloads-snoc es (entry h d (suc size)))
                (unfold Effects.insert_node alloc in rw (first, second));
        }
  ]
]
