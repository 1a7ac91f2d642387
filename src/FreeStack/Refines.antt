-- ===== src/FreeStack/Refines.antt =====
-- The stack of pointers against a bounded list: any sequence of calls.
use simple_http.Base.{
  ℕ, zero, suc, ◌+◌, ◌≤◌, ◌≡◌, refl, ap, subst, false, Option, none, some, List, [], ◌∷◌, ltb,
  if◌then◌else◌, length, arith, lt→ltb,
}
use simple_http.FreeStack.{
  FreeStack, Outcome, ok, quit, out_of_bounds, save_ptr, pop_ptr, stack_count,
}
use simple_http.FreeStack.Laws.{
  IsStack, contents, newest, Saves, save_ptr-Saves, Pops, pop_ptr-Pops,
}

-- A call of the stack.
pub data StackCall : Type 0 where
  save : ℕ → StackCall
  pop : StackCall

abbrev pub with_popped {ℓ} : {A : Type ℓ} → ℕ → Outcome (List ℕ × A) → Outcome (List ℕ × A)
with_popped p (ok (ps, s)) = ok (p ∷ ps, s)
with_popped p quit = quit
with_popped p out_of_bounds = out_of_bounds

abbrev pub after_save {ℓ} : {A : Type ℓ} → (FreeStack → Outcome A) → Outcome FreeStack → Outcome A
after_save again (ok s) = again s
after_save again quit = quit
after_save again out_of_bounds = out_of_bounds

abbrev pub after_pop {ℓ} :
    {A : Type ℓ}
    → (FreeStack → Outcome (List ℕ × A))
    → Outcome (ℕ × FreeStack)
    → Outcome (List ℕ × A)
after_pop again (ok (p, s)) = with_popped p (again s)
after_pop again quit = quit
after_pop again out_of_bounds = out_of_bounds

-- The calls, with the pointers that were popped.
pub calls : List StackCall → FreeStack → Outcome (List ℕ × FreeStack)
calls [] s = ok ([], s)
calls (save p ∷ cs) s = after_save (calls cs) (save_ptr p s)
calls (pop ∷ cs) s = after_pop (calls cs) (pop_ptr s)

-- A list of at most 64 pointers, newest first; an empty one pops NULL, and a full one takes no more.
abbrev pub add_popped : ℕ → Option (List ℕ × List ℕ) → Option (List ℕ × List ℕ)
add_popped p none = none
add_popped p (some (ps, l)) = some (p ∷ ps, l)

pub bounded : List StackCall → List ℕ → Option (List ℕ × List ℕ)
bounded [] l = some ([], l)
bounded (save p ∷ cs) l =
    let rest = bounded cs (p ∷ l) in if ltb (length l) stack_count then rest else none
bounded (pop ∷ cs) [] = add_popped 0 (bounded cs [])
bounded (pop ∷ cs) (p ∷ l) = add_popped p (bounded cs l)

-- The stack has the list's pointers, and gave the same ones; where the list takes no more, the stack
-- stores behind its array.
abbrev pub Agrees : Option (List ℕ × List ℕ) → Outcome (List ℕ × FreeStack) → Type 0
Agrees none r = r ≡ out_of_bounds
Agrees (some (ps, l)) (ok (qs, s)) = (qs ≡ ps) × IsStack s × (contents s ≡ l)
Agrees (some _) _ = ⊥

length-newest :
    (n : ℕ) (xs acc : List ℕ) → n ≤ length xs → length (newest n xs acc) ≡ n + length acc
length-newest zero xs acc h = omega arith
length-newest (suc n) [] acc h = absurd (omega arith)
length-newest (suc n) (x ∷ xs) acc h = omega (arith, length-newest n xs (x ∷ acc) (omega arith))

length-contents : (s : FreeStack) → IsStack s → length (contents s) ≡ s.top
length-contents s i =
    omega (arith, length-newest s.top s.ptrs [] (omega (arith, i.cells, i.within)))

Agrees-popped :
    (p : ℕ) (o : Option (List ℕ × List ℕ)) (r : Outcome (List ℕ × FreeStack))
    → Agrees o r
    → Agrees (add_popped p o) (with_popped p r)
Agrees-popped p none r a = ap (with_popped p) a
Agrees-popped p (some (ps, l)) (ok (qs, s)) (e, i, c) = (ap (λ qs. p ∷ qs) e, i, c)
Agrees-popped p (some (ps, l)) quit a = absurd a
Agrees-popped p (some (ps, l)) out_of_bounds a = absurd a

full : (n : ℕ) → n ≡ stack_count → ltb n stack_count ≡ false
full n e = ground arith

module _ (cs : List StackCall)
    (again : (t : FreeStack) → IsStack t → Agrees (bounded cs (contents t)) (calls cs t)) where
  Agrees-saved :
      (p : ℕ) (s : FreeStack) (r : Outcome FreeStack)
      → IsStack s
      → Saves p s r
      → Agrees (bounded (save p ∷ cs) (contents s)) (after_save (calls cs) r)
  unfolding bounded
  Agrees-saved p s (ok t) i (room, it, c) =
      rw (length-contents s i, lt→ltb s.top stack_count room)
        (subst (λ l. Agrees (bounded cs l) (calls cs t)) c (again t it))
  Agrees-saved p s quit i h = absurd h
  Agrees-saved p s out_of_bounds i h = rw (length-contents s i, full s.top h) refl

  popped_one :
      (p : ℕ) (t : FreeStack) (q : ℕ) (l : List ℕ)
      → p ≡ q
      → IsStack t
      → contents t ≡ l
      → Agrees (add_popped q (bounded cs l)) (with_popped p (calls cs t))
  popped_one p t q l e i c =
      rw (e, ← c) (Agrees-popped q (bounded cs (contents t)) (calls cs t) (again t i))

  popped :
      (l : List ℕ) (r : Outcome (ℕ × FreeStack))
      → Pops l r
      → Agrees (bounded (pop ∷ cs) l) (after_pop (calls cs) r)
  unfolding bounded
  popped [] (ok (p, t)) (e, it, c) = popped_one p t 0 [] e it c
  popped (x ∷ l) (ok (p, t)) (e, it, c) = popped_one p t x l e it c
  popped [] quit h = absurd h
  popped [] out_of_bounds h = absurd h
  popped (x ∷ l) quit h = absurd h
  popped (x ∷ l) out_of_bounds h = absurd h

-- Any sequence of `save_ptr` and `pop_ptr` on a stack within its array does what a list of at most
-- 64 pointers does: each `pop_ptr` returns the newest pointer, or NULL on an empty list, and the
-- stack holds what the list holds behind them; where the list is full and takes no more, the stack
-- stores behind its array, and it never quits.
pub calls-Agrees :
    (cs : List StackCall) (s : FreeStack)
    → IsStack s
    → Agrees (bounded cs (contents s)) (calls cs s)
unfolding calls bounded
calls-Agrees [] s i = (refl, i, refl)
calls-Agrees (save p ∷ cs) s i =
    Agrees-saved cs (calls-Agrees cs) p s (save_ptr p s) i (save_ptr-Saves p s i)
calls-Agrees (pop ∷ cs) s i =
    popped cs (calls-Agrees cs) (contents s) (pop_ptr s) (pop_ptr-Pops s i)
