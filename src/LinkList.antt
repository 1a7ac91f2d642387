-- ===== src/LinkList.antt =====
-- src/link_list.c and src/link_list.h: the doubly linked list, on an explicit heap of nodes. `none`
-- is a fault: a read or a `free` through an address that holds no node. The block that holds a
-- node's copied data lives and dies with the node.
pub mod Chain
pub mod Insert
pub mod Free
pub mod Refines
use simple_http.Effects.{granted, later}
use simple_http.Base.{
  ℕ, zero, suc, ◌+◌, ◌≡◌, refl, Bool, true, false, Option, none, some, List, [], ◌∷◌, ◌++◌, ◌==◌,
  if◌then◌else◌,
}

pub record Node {ℓ} (A : Type ℓ) : Type ℓ where
  pub size : ℕ
  pub payload : A
  pub next : Option ℕ
  pub prev : Option ℕ

-- `allocs` tells which of the coming allocations succeed, all of them from its end on; `freed`
-- collects what `free` or the caller's function is handed.
pub record Heap {ℓ} (A : Type ℓ) : Type ℓ where
  pub fresh : ℕ
  pub cell : ℕ → Option (Node A)
  pub allocs : List Bool
  pub freed : List A

module _ {ℓ} {A : Type ℓ} where
  unfoldable pub update : (ℕ → Option A) → ℕ → Option A → ℕ → Option A
  update f p v q = if p == q then v else f q

module _ {ℓ} {A : Type ℓ} where
  pub place : A → ℕ → Heap A → Option ℕ × Heap A
  place d size h =
      let node : Node A = record { size = size; payload = d; next = none; prev = none } in
      (some h.fresh, record h { fresh = suc h.fresh; cell = update h.cell h.fresh (some node) })

  -- The first allocation is the node, the second its data; the node is given back if that fails.
  pub create_node : Option A → ℕ → Heap A → Option ℕ × Heap A
  unfolding place
  create_node none size h = (none, h)
  create_node (some d) zero h = (none, h)
  create_node (some d) (suc size) h =
      if granted h.allocs
      then if granted (later h.allocs)
        then place d (suc size) (record h { allocs = later (later h.allocs) })
        else (none, record h { allocs = later (later h.allocs) })
      else (none, record h { allocs = later h.allocs })

  -- `while (temp->next != NULL) temp = temp->next;`
  pub walk : ℕ → ℕ → Heap A → Option ℕ
  walk zero temp h = none
  walk (suc f) temp h = elim (h.cell temp) [
    | none ↦ none
    | some n ↦ elim n.next [ none ↦ some temp | some u ↦ walk f u h ]
  ]

  pub set_prev : ℕ → ℕ → Heap A → Option (Heap A)
  set_prev p v h = elim (h.cell p) [
    | none ↦ none
    | some n ↦ some (record h { cell = update h.cell p (some (record n { prev = some v })) })
  ]

  pub set_next : ℕ → ℕ → Heap A → Option (Heap A)
  set_next p v h = elim (h.cell p) [
    | none ↦ none
    | some n ↦ some (record h { cell = update h.cell p (some (record n { next = some v })) })
  ]

  -- The head that `insert_node` leaves in `*head`, with the heap. No list is longer than the heap.
  pub link : ℕ → ℕ → Heap A → Option (Option ℕ × Heap A)
  link first new h = elim (walk h.fresh first h) [
    | none ↦ none
    | some temp ↦ elim (set_prev new temp h) [
      | none ↦ none
      | some h' ↦ elim (set_next temp new h') [ none ↦ none | some h'' ↦ some (some first, h'') ]
    ]
  ]

  pub attach : Option ℕ → Option ℕ × Heap A → Option (Option ℕ × Heap A)
  unfolding link
  attach head (none, h) = some (head, h)
  attach none (some new, h) = some (some new, h)
  attach (some first) (some new, h) = link first new h

  pub insert_node : Option ℕ → Option A → ℕ → Heap A → Option (Option ℕ × Heap A)
  unfolding attach create_node
  insert_node head d size h = attach head (create_node d size h)

  -- One round of the loop frees the data, then the node.
  pub free_nodes : ℕ → Option ℕ → Heap A → Option (Heap A)
  free_nodes f none h = some h
  free_nodes zero (some temp) h = none
  free_nodes (suc f) (some temp) h = elim (h.cell temp) [
    | none ↦ none
    | some n ↦
        free_nodes f n.next
          (record h { cell = update h.cell temp none; freed = h.freed ++ n.payload ∷ [] })
  ]

  pub free_list : Option ℕ → Heap A → Option (Heap A)
  unfolding free_nodes
  free_list head h = free_nodes h.fresh head h
