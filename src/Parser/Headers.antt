-- ===== src/Parser/Headers.antt =====
-- The header loop of `parse_request`, whatever the client sends and whatever memory does.
use simple_http.Base.{
  zero, inr, inl, Bool-cases, suc, ℕ, ◌≤◌, ◌<◌, ◌≡◌, refl, ap, ◌∙◌, Bool, true, false, Option, none,
  some, List, [], ◌∷◌, Bytes, codes, length, arith, map, All,
}
use simple_http.Effects.{M, World, Run, alloc, insert_node}
use simple_http.Effects.Returns.{
  Returns, Returns-bind, Returns-mono, SameIo, alloc-SameIo, insert_node-SameIo,
}
use simple_http.Parser.Lines.{fgets, read_line, line_max, read_line_shorter}
use simple_http.Parser.Tokens.{split_on_c}
use simple_http.Parser.Tokens.Total.{split_on_c-SameIo}
use simple_http.Parser
use simple_http.Parser.{ParseStatus, parse_ok, PairSs, dangling, Request}

-- Reading and allocating leave the descriptors and what was sent alone, and read forwards.
pub record Reads (w w' : World) : Type 0 where
  pub fds : w'.fds ≡ w.fds
  pub next_fd : w'.next_fd ≡ w.next_fd
  pub sent : w'.sent ≡ w.sent
  pub input : length w'.input ≤ length w.input

pub Reads-of_same : {w w' : World} → SameIo w w' → Reads w w'
Reads-of_same s = record {
  fds = s.fds;
  next_fd = s.next_fd;
  sent = s.sent;
  input = omega (arith, ap length s.input);
}

pub Reads-trans : {u v w : World} → Reads u v → Reads v w → Reads u w
Reads-trans a b = record {
  fds = b.fds ∙ a.fds;
  next_fd = b.next_fd ∙ a.next_fd;
  sent = b.sent ∙ a.sent;
  input = omega (arith, a.input, b.input);
}

pub fgets_shorter :
    (s : Bytes) {line rest : Bytes} → fgets s ≡ some (line, rest) → length rest < length s
unfolding fgets
fgets_shorter [] h = cc
fgets_shorter (c ∷ s) {line} {rest} h =
    let same : rest ≡ (read_line line_max (c ∷ s)).1 = cc h in rw same (read_line_shorter 1022 c s)

-- A line that was read leaves less to read.
abbrev pub Advanced : World → Option Bytes → World → Type 0
Advanced w none w' = Reads w w'
Advanced w (some line) w' = Reads w w' × (length w'.input < length w.input)

pub Reads-refl : (w : World) → Reads w w
Reads-refl w = record { fds = refl; next_fd = refl; sent = refl; input = omega arith }

pub next_line-Advanced : (w : World) → Returns (Advanced w) (Parser.next_line w)
unfolding Parser.next_line
next_line-Advanced w = go (fgets w.input) refl
  where
    go :
        (r : Option (Bytes × Bytes)) → fgets w.input ≡ r → Returns (Advanced w) (Parser.advance w r)
    go none e = Reads-refl w
    go (some (line, rest)) e =
        let shorter : length rest < length w.input = fgets_shorter w.input e in
        (record { fds = refl; next_fd = refl; sent = refl; input = omega arith }, shorter)

-- No stored header can be read: its pointers dangle.
abbrev pub Dangles : PairSs → Type 0
Dangles p = (p.v1 ≡ dangling) × (p.v2 ≡ dangling)

map-Dangles : (ps : List PairSs) → All Dangles (map Parser.release ps)
map-Dangles [] = tt
map-Dangles (p ∷ ps) = ((refl, refl), map-Dangles ps)

abbrev pub Stores : World → Bool × List PairSs → World → Type 0
Stores w r w' = Reads w w' × All Dangles r.1

insert_pair-Stores :
    (headers : List PairSs) (pair : PairSs) (b : Bool) (w : World)
    → All Dangles headers
    → Returns (Stores w) (Parser.insert_pair headers pair b w)
unfolding Parser.insert_pair
insert_pair-Stores headers pair false w d = (Reads-refl w, d)
insert_pair-Stores headers pair true w d =
    Returns-bind (λ _ w'. SameIo w w') (Stores w) (insert_node headers pair w) _
      (insert_node-SameIo headers pair w)
      (λ stored w' same. (Reads-of_same same, map-Dangles stored))

-- Behind a step that only allocates.
after_same :
    (w w' : World) (r : Run (Bool × List PairSs))
    → SameIo w w'
    → Returns (Stores w') r
    → Returns (Stores w) r
after_same w w' r same s =
    Returns-mono (Stores w') (Stores w) r s
      (λ a u (reads, d). (Reads-trans (Reads-of_same same) reads, d))

store_pair-Stores :
    (headers : List PairSs) (words : List Bytes) (w : World)
    → All Dangles headers
    → Returns (Stores w) (Parser.store_pair headers words w)
unfolding Parser.store_pair
store_pair-Stores headers [] w d = (Reads-refl w, d)
store_pair-Stores headers (name ∷ []) w d = (Reads-refl w, d)
store_pair-Stores headers (name ∷ value ∷ more) w d =
    Returns-bind (λ _ w'. SameIo w w') (Stores w) (alloc w) _ (alloc-SameIo w)
      (λ b w' same. after_same w w' _ same (insert_pair-Stores headers _ b w' d))

header_line-Stores :
    (headers : List PairSs) (line : Bytes) (w : World)
    → All Dangles headers
    → Returns (Stores w) (Parser.header_line headers line w)
unfolding Parser.header_line
header_line-Stores headers line w d =
    Returns-bind (λ _ w'. SameIo w w') (Stores w) (alloc w) _ (alloc-SameIo w)
      (λ b w' same. after_same w w' _ same (split b w'))
  where
    split : (b : Bool) (u : World) → Returns (Stores u) (Parser.split_header headers line b u)
    split false u = unfold Parser.split_header in (Reads-refl u, d)
    split true u =
        unfold Parser.split_header in
        Returns-bind (λ _ u'. SameIo u u') (Stores u) (split_on_c (codes ": ") line u) _
          (split_on_c-SameIo (codes ": ") line u)
          (λ words u' same. after_same u u' _ same (store_pair-Stores headers words u' d))

-- Behind a step that only reads.
behind_read :
    (w w' : World) (r : Run (Bool × List PairSs))
    → Reads w w'
    → Returns (Stores w') r
    → Returns (Stores w) r
behind_read w w' r reads s =
    Returns-mono (Stores w') (Stores w) r s (λ a u (more, d). (Reads-trans reads more, d))

-- What the rounds behind a round do, where fewer bytes are left than `f`.
abbrev Again : ℕ → (List PairSs → M (Bool × List PairSs)) → Type 0
Again f again =
    (headers : List PairSs) (w : World)
    → length w.input < f
    → All Dangles headers
    → Returns (Stores w) (again headers w)

module _ (f : ℕ) (again : List PairSs → M (Bool × List PairSs)) (ih : Again f again) where
  go_on-Stores :
      (r : Bool × List PairSs) (w : World)
      → length w.input < f
      → All Dangles r.1
      → Returns (Stores w) (Parser.go_on again r w)
  unfolding Parser.go_on
  go_on-Stores (false, headers) w lt d = (Reads-refl w, d)
  go_on-Stores (true, headers) w lt d = ih headers w lt d

  on_line-Stores :
      (headers : List PairSs) (next : Option Bytes) (w : World)
      → length w.input < f
      → All Dangles headers
      → Returns (Stores w) (Parser.on_line again headers next w)
  unfolding Parser.on_line
  on_line-Stores headers none w lt d = (Reads-refl w, d)
  on_line-Stores headers (some line) w lt d = elim (Bool-cases (Parser.is_end line)) [
    | inl end ↦ rw end (Reads-refl w, d)
    | inr more ↦ rw more (
        Returns-bind (Stores w) (Stores w) (Parser.header_line headers line w) _
          (header_line-Stores headers line w d)
          (λ r u (reads, d').
            behind_read w u (Parser.go_on again r u) reads
              (go_on-Stores r u (omega (arith, reads.input)) d')))
  ]

  after_line-Stores :
      (headers : List PairSs) (next : Option Bytes) (w u : World)
      → length w.input < suc f
      → All Dangles headers
      → Advanced w next u
      → Returns (Stores w) (Parser.on_line again headers next u)
  unfolding Parser.on_line
  after_line-Stores headers none w u lt d reads = (reads, d)
  after_line-Stores headers (some line) w u lt d (reads, shorter) =
      behind_read w u (Parser.on_line again headers (some line) u) reads
        (on_line-Stores headers (some line) u (omega arith) d)

headers_loop-Stores :
    (f : ℕ) (headers : List PairSs) (w : World)
    → length w.input < f
    → All Dangles headers
    → Returns (Stores w) (Parser.headers_loop f headers w)
unfolding Parser.headers_loop
headers_loop-Stores zero headers w lt d = elim lt [ ]
headers_loop-Stores (suc f) headers w lt d =
    Returns-bind (Advanced w) (Stores w) (Parser.next_line w) _ (next_line-Advanced w) (λ next u a.
      after_line-Stores f (Parser.headers_loop f) (headers_loop-Stores f) headers next w u lt d a)

-- From headers that dangle, the loop over the header lines ends, on every input and whatever
-- memory does, and meets no undefined behaviour; it sends nothing, leaves the descriptors alone,
-- never reads backwards, and leaves no header that could be read.
pub read_headers-Stores :
    (headers : List PairSs) (w : World)
    → All Dangles headers
    → Returns (Stores w) (Parser.read_headers headers w)
unfolding Parser.read_headers
read_headers-Stores headers w d =
    headers_loop-Stores (suc (length w.input)) headers w (omega arith) d
