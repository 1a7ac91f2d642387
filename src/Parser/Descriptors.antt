-- ===== src/Parser/Descriptors.antt =====
-- What `parse_request` does to the connection's descriptors, whatever the client sends and whatever
-- memory and `dup` do.
use simple_http.Base.{
  Bytes, codes, ap, Option, none, some, Bool-cases, inl, ◌≡◌, ◌≢◌, refl, ◌∙◌, Bool, true, false,
  List, [], ◌∷◌, inr, ◌⊎◌, All,
}
use simple_http.Base.Int.{ℤ, pos}
use simple_http.Effects.{World, is_open, dup, granted, alloc, later}
use simple_http.Effects.Returns.{Returns, Returns-bind, SameIo, alloc-SameIo}
use simple_http.Parser.Headers.{
  Dangles, Reads, Reads-of_same, Advanced, next_line-Advanced, Stores, read_headers-Stores,
}
use simple_http.Parser.Tokens.{split_on_c}
use simple_http.Parser.Tokens.Total.{split_on_c-SameIo}
use simple_http.Parser
use simple_http.Parser.{
  ParseStatus, parse_ok, parse_err, no_memory, invalid_request, parse_request, PairSs, Request,
}
use simple_http.Parser.Closing.{
  Below, close-closed, is_open-closed, Copied, dup-Copied, new-is_open, Below-moved,
}

-- The result of `parse_request` on `req` in `w`. Its connection's descriptor is closed, nothing was
-- sent, and no stored header can be read. Where it succeeds the request has the next descriptor,
-- which is open; otherwise it keeps the closed one.
pub record Ended (req : Request) (w : World) (r : ParseStatus × Request) (w' : World) : Type 0 where
  pub sent : w'.sent ≡ w.sent
  pub closed_fd : is_open req.cfd w'.fds ≡ false
  pub dangles : All Dangles r.1.headers
  pub result :
      ((r.0 ≡ parse_ok) × (r.1.cfd ≡ pos w.next_fd) × (is_open r.1.cfd w'.fds ≡ true))
      ⊎ ((r.0 ≢ parse_ok) × (r.1.cfd ≡ req.cfd))

parse_err-failed : parse_err ≢ parse_ok
parse_err-failed e = cc

no_memory-failed : no_memory ≢ parse_ok
no_memory-failed e = cc

invalid_request-failed : invalid_request ≢ parse_ok
invalid_request-failed e = cc

module _ (req : Request) (w : World) where
  finish-Ended :
      (req' : Request) (status : ParseStatus) (u : World)
      → u.sent ≡ w.sent
      → req'.cfd ≡ req.cfd
      → All Dangles req'.headers
      → status ≢ parse_ok
      → Returns (Ended req w) (Parser.finish req' status u)
  unfolding Parser.finish
  finish-Ended req' status u same fd d bad =
      let (b, e) = close-closed req'.cfd u in
      rw e (record {
        sent = same;
        closed_fd = rw (← fd) (is_open-closed req'.cfd u.fds);
        dangles = d;
        result = inr (bad, fd);
      })

  hand_over-Ended :
      (req' : Request) (u u' : World) (fd : Option ℤ)
      → Below u.next_fd u.fds
      → u.next_fd ≡ w.next_fd
      → u.sent ≡ w.sent
      → req'.cfd ≡ req.cfd
      → All Dangles req'.headers
      → Copied req'.cfd u fd u'
      → Returns (Ended req w) (Parser.hand_over req' fd u')
  unfolding Parser.hand_over
  hand_over-Ended req' u u' none below next same fd d (_, sent) =
      finish-Ended req' parse_err u' (sent ∙ same) fd d parse_err-failed
  hand_over-Ended req' u u' (some new) below next same fd d (fds, sent, e, opened) =
      let (b, c) = close-closed req'.cfd u' in
      rw c (record {
        sent = sent ∙ same;
        closed_fd = rw (← fd) (is_open-closed req'.cfd u'.fds);
        dangles = d;
        result = inl (
          refl,
          e ∙ ap pos next,
          rw (e, fds) (new-is_open req'.cfd u.next_fd u.fds below opened),
        );
      })

  after_headers-Ended :
      (req' : Request) (r : Bool × List PairSs) (u : World)
      → Below u.next_fd u.fds
      → u.next_fd ≡ w.next_fd
      → u.sent ≡ w.sent
      → req'.cfd ≡ req.cfd
      → All Dangles r.1
      → Returns (Ended req w) (Parser.after_headers req' r u)
  unfolding Parser.after_headers
  after_headers-Ended req' (false, headers) u below next same fd d =
      finish-Ended (record req' { headers = headers }) no_memory u same fd d no_memory-failed
  after_headers-Ended req' (true, headers) u below next same fd d =
      Returns-bind (Copied req'.cfd u) (Ended req w) (dup req'.cfd u) _ (dup-Copied req'.cfd u)
        (λ new u' c.
          hand_over-Ended (record req' { headers = headers }) u u' new below next same fd d c)

  set_path-Ended :
      (req' : Request) (path : Bytes) (b : Bool) (u : World)
      → Below u.next_fd u.fds
      → u.next_fd ≡ w.next_fd
      → u.sent ≡ w.sent
      → req'.cfd ≡ req.cfd
      → All Dangles req'.headers
      → Returns (Ended req w) (Parser.set_path req' path b u)
  unfolding Parser.set_path
  set_path-Ended req' path false u below next same fd d =
      finish-Ended req' no_memory u same fd d no_memory-failed
  set_path-Ended req' path true u below next same fd d =
      Returns-bind (Stores u) (Ended req w) (Parser.read_headers req'.headers u) _
        (read_headers-Stores req'.headers u d)
        (λ r u' (reads, d').
          after_headers-Ended _ r u' (Below-moved reads below) (reads.next_fd ∙ next)
            (reads.sent ∙ same) fd d')

  request_line-Ended :
      (words : List Bytes) (u : World)
      → Below u.next_fd u.fds
      → u.next_fd ≡ w.next_fd
      → u.sent ≡ w.sent
      → All Dangles req.headers
      → Returns (Ended req w) (Parser.request_line req words u)
  unfolding Parser.request_line
  request_line-Ended [] u below next same d =
      finish-Ended req invalid_request u same refl d invalid_request-failed
  request_line-Ended (word ∷ []) u below next same d =
      finish-Ended req invalid_request u same refl d invalid_request-failed
  request_line-Ended (word ∷ path ∷ more) u below next same d =
      Returns-bind (λ _ u'. SameIo u u') (Ended req w) (alloc u) _ (alloc-SameIo u)
        (λ b u' s.
          set_path-Ended _ path b u' (Below-moved (Reads-of_same s) below) (s.next_fd ∙ next)
            (s.sent ∙ same) refl d)

  first_line-Ended :
      (line : Option Bytes) (u : World)
      → Below u.next_fd u.fds
      → u.next_fd ≡ w.next_fd
      → u.sent ≡ w.sent
      → All Dangles req.headers
      → Returns (Ended req w) (Parser.first_line req line u)
  unfolding Parser.first_line
  first_line-Ended none u below next same d =
      finish-Ended req parse_err u same refl d parse_err-failed
  first_line-Ended (some line) u below next same d =
      Returns-bind (λ _ u'. SameIo u u') (Ended req w) (split_on_c (codes " ") line u) _
        (split_on_c-SameIo (codes " ") line u)
        (λ words u' s.
          request_line-Ended words u' (Below-moved (Reads-of_same s) below) (s.next_fd ∙ next)
            (s.sent ∙ same) d)

Reads-of_Advanced : (u : World) (line : Option Bytes) (u' : World) → Advanced u line u' → Reads u u'
Reads-of_Advanced u none u' a = a
Reads-of_Advanced u (some line) u' a = a.0

-- On a connection below whose next descriptor all others lie, with memory for the stream and
-- headers that dangle already, `parse_request` returns: it neither aborts nor meets undefined
-- behaviour, whatever the client sends and whatever memory behind the stream and `dup` do. It
-- sends nothing, the request's old descriptor is closed behind it, and every stored header
-- dangles. The request has a new descriptor, which is open, exactly where the result is
-- `PARSE_OK`.
pub parse_request-Ended :
    (req : Request) (w : World)
    → Below w.next_fd w.fds
    → granted w.allocs ≡ true
    → All Dangles req.headers
    → Returns (Ended req w) (parse_request req w)
unfolding parse_request Parser.on_stream alloc
parse_request-Ended req w below memory d = elim (Bool-cases (is_open req.cfd w.fds)) [
  | inl o ↦
      let u : World = record w { allocs = later w.allocs } in
      rw (o, memory)
        (Returns-bind (Advanced u) (Ended req w) (Parser.next_line u) _ (next_line-Advanced u)
          (λ line u' a.
            let reads = Reads-of_Advanced u line u' a in
            first_line-Ended req w line u' (Below-moved reads below) reads.next_fd reads.sent d))
  | inr s ↦
      rw s
        (record { sent = refl; closed_fd = s; dangles = d; result = inr (parse_err-failed, refl) })
]
