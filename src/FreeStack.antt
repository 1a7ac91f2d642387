-- ===== src/FreeStack.antt =====
-- src/stack.c and src/quit_handler.h: the stack of pointers that the quit handler frees. A pointer
-- is its address, 0 for NULL.
pub mod Laws
pub mod Refines
use simple_http.Base.{
  ℕ, zero, suc, ◌+◌, ◌-◌, ◌≡◌, refl, Bool, true, false, Option, none, some, List, [], ◌∷◌, ◌++◌,
  ◌==◌, ltb, if◌then◌else◌, length, get_elem?, replicate,
}

abbrev pub stack_count : ℕ
stack_count = 64

pub record FreeStack : Type 0 where
  pub top : ℕ
  pub ptrs : List ℕ

-- `free_stack_t free_stack = {0}`
abbrev pub empty : FreeStack
empty = record { top = 0; ptrs = replicate stack_count 0 }

-- `quit` is `quick_exit(1)`, behind `free(data)`; `out_of_bounds` is an access outside `ptrs`.
pub data Outcome {ℓ} (A : Type ℓ) : Type ℓ where
  ok : A → Outcome A
  quit : Outcome A
  out_of_bounds : Outcome A

abbrev pub store : List ℕ → ℕ → ℕ → Option (List ℕ)
store [] i v = none
store (x ∷ xs) zero v = some (v ∷ xs)
store (x ∷ xs) (suc i) v = elim (store xs i v) [ none ↦ none | some ys ↦ some (x ∷ ys) ]

unfoldable pub save_ptr : ℕ → FreeStack → Outcome FreeStack
save_ptr p s = if ltb stack_count s.top then quit else elim (store s.ptrs s.top p) [
  | none ↦ out_of_bounds
  | some cells ↦ ok (record { top = suc s.top; ptrs = cells })
]

unfoldable pub pop_ptr : FreeStack → Outcome (ℕ × FreeStack)
pop_ptr s = if s.top == 0 then ok (0, s) else elim (get_elem? s.ptrs (s.top - 1)) [
  | none ↦ out_of_bounds
  | some p ↦ ok (p, record s { top = s.top - 1 })
]

-- The loop `while ((ptr = pop_ptr())) free(ptr);` of `ctrl_c_h`, with what it frees. A fuel above the
-- number of cells is enough; without fuel the outcome is the fault.
pub drain : ℕ → FreeStack → Outcome (List ℕ × FreeStack)
drain zero s = out_of_bounds
drain (suc f) s = elim (pop_ptr s) [
  | quit ↦ quit
  | out_of_bounds ↦ out_of_bounds
  | ok (p, s') ↦
      let rest = drain f s' in
      if p == 0 then ok ([], s') else elim rest [
        | quit ↦ quit
        | out_of_bounds ↦ out_of_bounds
        | ok (freed, last) ↦ ok (p ∷ freed, last)
      ]
]
