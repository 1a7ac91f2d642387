-- ===== src/Examples/Memory.antt =====
-- Runs of src/link_list.c and src/stack.c.
use simple_http.Base.{
  none, ◌==◌, if◌then◌else◌, codes, replicate, false, some, Bool, Option, ℕ, true, ◌∷◌, Bytes,
  arith, List, [], refl,
}
use simple_http.LinkList.{Node, Heap, insert_node, free_list}
use simple_http.LinkList.Chain.{Entry, IsList}
use simple_http.LinkList.Insert.{Inserted, insert_node-Inserted}
use simple_http.LinkList.Refines.{Refined, insert_node-Refined}
use simple_http.LinkList.Free.{Freed, free_list-Freed}
use simple_http.Base.{length, ◌+◌, ◌≡◌}
use simple_http.Effects.{done}
use simple_http.Effects.Outcomes.{calm}
use simple_http.Response.Blocks
use simple_http.Response.Blocks.{Store, lifetime}
use simple_http.Response.Blocks.Account.{count}
use simple_http.Response.Blocks.Life.{leaks, lifetime-leaks}
use simple_http.FreeStack.{FreeStack, empty}
use simple_http.FreeStack.Refines.{Agrees, bounded, calls, save, pop, calls-Agrees}
use simple_http.FreeStack.Laws.{contents, IsStack, empty-IsStack}

abbrev first : Entry Bytes
first = record { addr = 3; size = 4; payload = codes "one" }

abbrev second : Entry Bytes
second = record { addr = 7; size = 4; payload = codes "two" }

abbrev two : List (Entry Bytes)
two = first ∷ second ∷ []

abbrev cells : ℕ → Option (Node Bytes)
cells p =
    if p == 3
    then some (record { size = 4; payload = codes "one"; next = some 7; prev = none })
    else if p == 7
    then some (record { size = 4; payload = codes "two"; next = none; prev = some 3 })
    else none

abbrev heap : List Bool → Heap Bytes
heap allocs = record { fresh = 9; cell = cells; allocs = allocs; freed = [] }

heap-IsList : (allocs : List Bool) → IsList (heap allocs) two
heap-IsList allocs = record {
  chain = (refl, (refl, tt));
  distinct = (((λ e. omega (arith, e)), tt), (tt, tt));
  below = (omega arith, (omega arith, tt));
  short = omega arith;
}

insert_node-Inserted_example :
    Inserted
      (heap (true ∷ true ∷ false ∷ []))
      two
      (codes "six")
      4
      (false ∷ [])
      (insert_node (some 3) (some (codes "six")) 4 (heap (true ∷ true ∷ false ∷ [])))
insert_node-Inserted_example =
    insert_node-Inserted (heap (true ∷ true ∷ false ∷ [])) two (codes "six") 3
      (heap-IsList (true ∷ true ∷ false ∷ [])) refl refl

insert_node-Refined_example :
    Refined
      (heap (true ∷ false ∷ []))
      two
      (codes "six")
      (insert_node (some 3) (some (codes "six")) 4 (heap (true ∷ false ∷ [])))
insert_node-Refined_example =
    insert_node-Refined (heap (true ∷ false ∷ [])) two (codes "six") 3
      (heap-IsList (true ∷ false ∷ []))

free_list-Freed_example : Freed (heap []) two (free_list (some 3) (heap []))
free_list-Freed_example = free_list-Freed (heap []) two (heap-IsList [])

calls-Agrees_example :
    Agrees
      (bounded (save 7 ∷ save 9 ∷ pop ∷ pop ∷ pop ∷ []) (contents empty))
      (calls (save 7 ∷ save 9 ∷ pop ∷ pop ∷ pop ∷ []) empty)
calls-Agrees_example = calls-Agrees (save 7 ∷ save 9 ∷ pop ∷ pop ∷ pop ∷ []) empty empty-IsStack

abbrev one_saved : FreeStack
one_saved = record { top = 1; ptrs = 4096 ∷ replicate 63 0 }

one_saved-IsStack : IsStack one_saved
one_saved-IsStack = record { cells = refl; within = omega arith }

-- A response with a header, a text, and a file in its place.
lifetime-leaks_example :
    (s' : Store) × (lost : List ℕ) × (lifetime
        (Blocks.header ∷ Blocks.text ∷ Blocks.more ∷ Blocks.file true true ∷ [])
        (record { next = 7; live = 3 ∷ [] })
        (calm (4 ∷ []) 5 [] [])
      ≡ done s' (calm (4 ∷ []) 5 [] []))
    × (length lost
        ≡ leaks false (Blocks.header ∷ Blocks.text ∷ Blocks.more ∷ Blocks.file true true ∷ []))
    × ((x : ℕ) → count x s'.live ≡ count x lost + count x (3 ∷ []))
lifetime-leaks_example =
    lifetime-leaks (Blocks.header ∷ Blocks.text ∷ Blocks.more ∷ Blocks.file true true ∷ [])
      (record { next = 7; live = 3 ∷ [] }) (4 ∷ []) 5 [] []
