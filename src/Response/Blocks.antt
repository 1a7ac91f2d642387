-- ===== src/Response/Blocks.antt =====
-- src/write_response.c: the blocks of memory of a response, who allocates them and who gives them
-- back. What the blocks hold is in Response.
pub mod Account
pub mod Owned
pub mod Keeps
pub mod Life
use simple_http.Base.{
  ℕ, suc, ◌+◌, Bool, true, false, Option, none, some, List, [], ◌∷◌, ◌++◌, ◌==◌, if◌then◌else◌,
}
use simple_http.Effects.{M, pure, ◌>>=◌, ◌>>◌, undefined, alloc, alloc_or_fatal}

-- The allocated blocks by their numbers, and the number of the next one.
pub record Store : Type 0 where
  pub next : ℕ
  pub live : List ℕ

abbrev pub fresh : Store → Store
fresh s = record { next = suc s.next; live = s.next ∷ s.live }

-- The first occurrence goes.
keep : ℕ → Option (List ℕ) → Option (List ℕ)
keep y none = none
keep y (some zs) = some (y ∷ zs)

pub remove : ℕ → List ℕ → Option (List ℕ)
unfolding keep
remove b [] = none
remove b (y ∷ ys) = let rest = remove b ys in if y == b then some ys else keep y rest

-- An allocation whose failure `log_fatal` ends.
unfoldable pub malloc : Store → M (ℕ × Store)
unfolding alloc_or_fatal
malloc s = do alloc_or_fatal; pure (s.next, fresh s)

pub give_back : Store → Option (List ℕ) → M Store
give_back s none = undefined
give_back s (some live) = pure (record s { live = live })

-- `free` of a block that is not allocated is undefined.
unfoldable pub free : ℕ → Store → M Store
unfolding remove give_back
free b s = give_back s (remove b s.live)

-- `free(NULL)` does nothing.
pub free_option : Option ℕ → Store → M Store
unfolding free
free_option none s = pure s
free_option (some b) s = free b s

-- A node of the list of headers: the node, the copy of the `header_t`, and what it points to.
pub record HeaderBlocks : Type 0 where
  pub node : ℕ
  pub data_block : ℕ
  pub name : ℕ
  pub value : ℕ

pub record Blocks : Type 0 where
  pub response : ℕ
  pub buffer : ℕ
  pub headers : List HeaderBlocks
  pub payload : Option ℕ

pub new_response : Store → M (Blocks × Store)
unfolding malloc
new_response s = do
  (response, s1) ← malloc s
  (buffer, s2) ← malloc s1
  pure (record { response = response; buffer = buffer; headers = []; payload = none }, s2)

-- `insert_node` with `create_node` of src/link_list.c: a list without memory stays as it is.
with_data : List HeaderBlocks → ℕ → ℕ → ℕ → Store → Bool → M (List HeaderBlocks × Store)
unfolding free
with_data headers name value node s false = do s1 ← free node s; pure (headers, s1)
with_data headers name value node s true = pure (
  headers ++ record { node = node; data_block = s.next; name = name; value = value } ∷ [],
  fresh s,
)

with_node : List HeaderBlocks → ℕ → ℕ → Store → Bool → M (List HeaderBlocks × Store)
unfolding with_data alloc
with_node headers name value s false = pure (headers, s)
with_node headers name value s true = alloc >>= with_data headers name value s.next (fresh s)

pub add_header : Blocks → Store → M (Blocks × Store)
unfolding malloc free with_node alloc
add_header res s = do
  (pair, s1) ← malloc s
  (name, s2) ← malloc s1
  (value, s3) ← malloc s2
  node ← alloc
  (headers, s4) ← with_node res.headers name value s3 node
  s5 ← free pair s4
  pure (record res { headers = headers }, s5)

-- The old block, if there is one, is not given back.
pub set_payload : Blocks → Store → M (Blocks × Store)
unfolding malloc
set_payload res s = do (block, s1) ← malloc s; pure (record res { payload = some block }, s1)

-- `realloc` to a size above zero moves the block; to size zero it would give the block back and
-- return NULL, which is fatal.
pub add_to : Blocks → Option ℕ → Store → M (Blocks × Store)
unfolding malloc free set_payload
add_to res none s = set_payload res s
add_to res (some old) s = do
  (block, s1) ← malloc s
  s2 ← free old s1
  pure (record res { payload = some block }, s2)

pub add_to_payload : Blocks → Store → M (Blocks × Store)
unfolding add_to
add_to_payload res s = add_to res res.payload s

-- The text that `ContentType` allocates, or none for NULL.
describe : Blocks → ℕ → Store → Bool → M (Blocks × Store)
unfolding add_header free
describe res block s false = do s1 ← free block s; pure (record res { payload = none }, s1)
describe res block s true = do
  (typed, s1) ← add_header (record res { payload = some block }) (fresh s)
  s2 ← free s.next s1
  add_header typed s2

-- Whether the file is opened, and whether it has a type.
pub add_file_to_payload : Bool → Bool → Blocks → Store → M (Blocks × Store)
unfolding malloc describe
add_file_to_payload false typed res s = pure (res, s)
add_file_to_payload true typed res s = do (block, s1) ← malloc s; describe res block s1 typed

-- `free_list(…, free_list_response)`
pub free_headers : List HeaderBlocks → Store → M Store
unfolding free
free_headers [] s = pure s
free_headers (h ∷ hs) s = do
  s1 ← free h.name s
  s2 ← free h.value s1
  s3 ← free h.data_block s2
  s4 ← free h.node s3
  free_headers hs s4

pub free_response : Blocks → Store → M Store
unfolding free free_option free_headers
free_response res s = do
  s1 ← free_headers res.headers s
  s2 ← free res.buffer s1
  s3 ← free_option res.payload s2
  free res.response s3

-- A caller's use of a response between its making and its end: `add_header`, `set_payload`,
-- `add_to_payload`, and `add_file_to_payload` with whether the file is opened and has a type.
pub data Call : Type 0 where
  header text more : Call
  file : Bool → Bool → Call

pub run_call : Call → Blocks → Store → M (Blocks × Store)
unfolding add_header set_payload add_to_payload add_file_to_payload
run_call header res s = add_header res s
run_call text res s = set_payload res s
run_call more res s = add_to_payload res s
run_call (file opens typed) res s = add_file_to_payload opens typed res s

pub run_calls : List Call → Blocks → Store → M Store
unfolding run_call free_response
run_calls [] res s = free_response res s
run_calls (c ∷ cs) res s = do (res', s') ← run_call c res s; run_calls cs res' s'

-- From `new_response` to `free_response`.
pub lifetime : List Call → Store → M Store
unfolding new_response run_calls
lifetime cs s = do (res, s') ← new_response s; run_calls cs res s'
