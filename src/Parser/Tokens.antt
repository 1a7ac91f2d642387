-- ===== src/Parser/Tokens.antt =====
-- `strtok` and `splitOn_c` of src/parser.c.
pub mod Words
pub mod Total
use simple_http.Base.{
  ℕ, zero, suc, Bool, false, ◌||◌, Option, none, some, List, [], ◌∷◌, Bytes, ◌==◌, if◌then◌else◌,
  length,
}
use simple_http.Effects.{M, pure, ◌>>=◌, undefined, insert_node}

abbrev pub is_delim : Bytes → ℕ → Bool
is_delim [] c = false
is_delim (d ∷ ds) c = c == d || is_delim ds c

module _ (delims : Bytes) where
  -- What is left behind the delimiters at the front.
  unfoldable pub skip : Bytes → Bytes
  skip [] = []
  skip (c ∷ s) = if is_delim delims c then skip s else c ∷ s

  -- The token at the front, and what is left behind the delimiter that ends it.
  unfoldable pub token : Bytes → Bytes × Bytes
  token [] = ([], [])
  token (c ∷ s) = let (t, rest) = token s in if is_delim delims c then ([], s) else (c ∷ t, rest)

  strtok_at : Bytes → Option (Bytes × Bytes)
  strtok_at [] = none
  strtok_at (c ∷ s) = some (token (c ∷ s))

  -- The next token and the text that `strtok(NULL, …)` goes on with, or NULL.
  unfoldable pub strtok : Bytes → Option (Bytes × Bytes)
  unfolding strtok_at skip token
  strtok s = strtok_at (skip s)

  -- The loop of `splitOn_c`: the fuel is above the length of the text.
  unfoldable pub split_loop : ℕ → Bytes → List Bytes → M (List Bytes)
  split_loop zero s head = undefined
  split_loop (suc f) s head = elim (strtok s) [
    | none ↦ pure head
    | some (t, rest) ↦ insert_node head t >>= (λ head'. split_loop f rest head')
  ]

  unfoldable pub split_on_c : Bytes → M (List Bytes)
  unfolding split_loop
  split_on_c s = split_loop (suc (length s)) s []
