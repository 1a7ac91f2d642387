-- ===== src/Parser/Accepts.antt =====
-- What `parse_request` makes of a request where memory and descriptors suffice.
use simple_http.Base.{
  ℕ, zero, suc, ◌<◌, ◌≡◌, refl, Bool, true, Option, none, some, List, [], ◌∷◌, Bytes, codes, length,
  arith, map, Bool-cases, inl, inr, ◌++◌,
}
use simple_http.Base.Int.{pos}
use simple_http.Effects.{M, done, alloc, is_open, dup}
use simple_http.Effects.Outcomes.{calm, insert_node-calm}
use simple_http.Parser.Lines.{fgets}
use simple_http.Parser.Tokens.Words.{words, split_on_c-words}
use simple_http.Parser.Headers.{fgets_shorter}
use simple_http.Parser.Closing.{closed, close-closed}
use simple_http.Parser
use simple_http.Parser.{PairSs, Request, parse_ok, invalid_request, heap, method_of, parse_request}

module _ (fds : List ℕ) (next : ℕ) (sent : Bytes) where
  -- A step over the headers that succeeds.
  abbrev Goes : M (Bool × List PairSs) → Bytes → Type 0
  Goes m input =
      (headers : List PairSs) × (m (calm fds next input sent)
        ≡ done (true, headers) (calm fds next input sent))

  store_pair-Goes :
      (headers : List PairSs) (ws : List Bytes) (input : Bytes)
      → Goes (Parser.store_pair headers ws) input
  unfolding Parser.store_pair Parser.insert_pair alloc
  store_pair-Goes headers [] input = (headers, refl)
  store_pair-Goes headers (name ∷ []) input = (headers, refl)
  store_pair-Goes headers (name ∷ value ∷ more) input = (
    map Parser.release (headers ++ Parser.pair_of name value ∷ []),
    rw (insert_node-calm headers (Parser.pair_of name value) fds next input sent),
  )

  header_line-Goes :
      (headers : List PairSs) (line input : Bytes) → Goes (Parser.header_line headers line) input
  unfolding Parser.header_line Parser.split_header alloc
  header_line-Goes headers line input =
      let (stored, e) = store_pair-Goes headers (words (codes ": ") line []) input in
      (stored, rw (split_on_c-words (codes ": ") line fds next input sent) e)

  next_line-none :
      (input : Bytes)
      → fgets input ≡ none
      → Parser.next_line (calm fds next input sent) ≡ done none (calm fds next input sent)
  unfolding Parser.next_line Parser.advance
  next_line-none input e = rw e

  next_line-some :
      (input line rest : Bytes)
      → fgets input ≡ some (line, rest)
      → Parser.next_line (calm fds next input sent) ≡ done (some line) (calm fds next rest sent)
  unfolding Parser.next_line Parser.advance
  next_line-some input line rest e = rw e

  -- The loop succeeds, and leaves some of the input.
  abbrev Reads : M (Bool × List PairSs) → Bytes → Type 0
  Reads m input =
      (headers : List PairSs) × (rest : Bytes) × (m (calm fds next input sent)
        ≡ done (true, headers) (calm fds next rest sent))

  headers_loop-Reads :
      (f : ℕ) (headers : List PairSs) (input : Bytes)
      → length input < f
      → Reads (Parser.headers_loop f headers) input
  headers_loop-Reads zero headers input h = elim h [ ]
  headers_loop-Reads (suc f) headers input h = go (fgets input) refl (headers_loop-Reads f)
    where
      go :
          (line : Option (Bytes × Bytes))
          → fgets input ≡ line
          → ((hs : List PairSs) (rest : Bytes)
              → length rest < f
              → Reads (Parser.headers_loop f hs) rest)
          → Reads (Parser.headers_loop (suc f) headers) input
      go none e again =
          unfold Parser.headers_loop Parser.on_line in (headers, input, rw (next_line-none input e))
      go (some (line, rest)) e again = elim (Bool-cases (Parser.is_end line)) [
        | inl end ↦
            unfold Parser.headers_loop Parser.on_line in
            (headers, rest, rw (next_line-some input line rest e, end))
        | inr more ↦
            let (stored, line_ok) = header_line-Goes headers line rest in
            let (hs, left, rest_ok) = again stored rest (omega (arith, fgets_shorter input e)) in
            (
              hs,
              left,
              unfold Parser.headers_loop Parser.on_line Parser.go_on in
                  rw (next_line-some input line rest e, more, line_ok) rest_ok,
            )
      ]

  read_headers-Reads :
      (headers : List PairSs) (input : Bytes) → Reads (Parser.read_headers headers) input
  unfolding Parser.read_headers
  read_headers-Reads headers input =
      headers_loop-Reads (suc (length input)) headers input (omega arith)

-- On a calm, open connection whose first line has two words or more, `parse_request` returns
-- `PARSE_OK`, whatever header lines follow: the method is that of the first word, or as before for
-- a word that is none, the path is the second word, the request has the copied descriptor, the old
-- one is closed, and nothing is sent.
pub parse_request_accepts :
    (req : Request) (word path : Bytes) (more : List Bytes) (line rest : Bytes) (fds : List ℕ)
    (next : ℕ) (input sent : Bytes)
    → is_open req.cfd fds ≡ true
    → fgets input ≡ some (line, rest)
    → words (codes " ") line [] ≡ word ∷ path ∷ more
    → (headers : List PairSs) × (left : Bytes) × (parse_request req (calm fds next input sent)
        ≡ done
            (
              parse_ok,
              record req {
                cfd = pos next;
                method = method_of req.method word;
                path = heap path;
                path_length = length path;
                headers = headers;
              },
            )
            (calm (closed req.cfd (next ∷ fds)) (suc next) left sent))
unfolding parse_request Parser.on_stream Parser.first_line Parser.request_line Parser.set_path
    Parser.after_headers Parser.hand_over alloc dup
parse_request_accepts req word path more line rest fds next input sent o first split =
    let (headers, left, read) = read_headers-Reads fds next sent req.headers rest in
    let (b, shut) = close-closed req.cfd (calm (next ∷ fds) (suc next) left sent) in
    (
      headers,
      left,
      rw (
        o,
        next_line-some fds next sent input line rest first,
        split_on_c-words (codes " ") line fds next rest sent,
        split,
        read,
        o,
        shut,
      ),
    )

-- A line of fewer than two words.
abbrev pub Short : List Bytes → Type 0
Short [] = Unit {0}
Short (word ∷ []) = Unit {0}
Short (word ∷ path ∷ more) = ⊥

-- On a calm, open connection whose first line has fewer than two words, `parse_request` returns
-- `PARSE_ERR_INVALID_REQUEST` and leaves the request as it was; the descriptor is closed, no more
-- is read, and nothing is sent.
pub parse_request_rejects :
    (req : Request) (line rest : Bytes) (fds : List ℕ) (next : ℕ) (input sent : Bytes)
    → is_open req.cfd fds ≡ true
    → fgets input ≡ some (line, rest)
    → Short (words (codes " ") line [])
    → parse_request req (calm fds next input sent)
      ≡ done (invalid_request, req) (calm (closed req.cfd fds) next rest sent)
unfolding parse_request Parser.on_stream Parser.first_line alloc
parse_request_rejects req line rest fds next input sent o first short =
    rw
      (
        o,
        next_line-some fds next sent input line rest first,
        split_on_c-words (codes " ") line fds next rest sent,
      )
      (refused (words (codes " ") line []) short)
  where
    refused :
        (ws : List Bytes)
        → Short ws
        → Parser.request_line req ws (calm fds next rest sent)
          ≡ done (invalid_request, req) (calm (closed req.cfd fds) next rest sent)
    refused [] s =
        let (b, shut) = close-closed req.cfd (calm fds next rest sent) in
        unfold Parser.request_line Parser.finish in rw shut
    refused (word ∷ []) s =
        let (b, shut) = close-closed req.cfd (calm fds next rest sent) in
        unfold Parser.request_line Parser.finish in rw shut
    refused (word ∷ path ∷ more) s = absurd s
