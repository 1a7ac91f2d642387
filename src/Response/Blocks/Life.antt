-- ===== src/Response/Blocks/Life.antt =====
-- A response from `new_response` to `free_response`: its blocks are given back.
use simple_http.Base.{
  subst, length-append, ℕ, ◌+◌, ◌≡◌, refl, Bool, true, false, Option, none, some, List, [], ◌∷◌,
  ◌++◌, length, arith, ap, ◌∙◌, Bytes,
}
use simple_http.Effects.{World, Run, done, alloc, alloc_or_fatal}
use simple_http.Effects.Outcomes.{calm}
use simple_http.Response.Blocks
use simple_http.Response.Blocks.{
  Store, fresh, HeaderBlocks, Blocks, malloc, new_response, add_header, set_payload, add_to_payload,
  add_file_to_payload, free_headers, free_response, free_option, Call, run_call, run_calls,
  lifetime,
}
use simple_http.Response.Blocks.Account.{count, count_append, Holds}
use simple_http.Response.Blocks.Owned.{of_option, of_headers, owned, free_response_lem}
use simple_http.Response.Blocks.Keeps.{
  Keeps, pays, old_payload, add_header-Keeps, set_payload-Keeps, add_to-Keeps, file-Keeps,
}

-- The blocks that a call loses, with whether there is a payload.
abbrev pub leak : Bool → ℕ
leak true = 1
leak false = 0

unfoldable pub leaks : Bool → List Call → ℕ
leaks p [] = 0
leaks p (Blocks.header ∷ cs) = leaks p cs
leaks p (Blocks.text ∷ cs) = leak p + leaks true cs
leaks p (Blocks.more ∷ cs) = leaks true cs
leaks p (Blocks.file false typed ∷ cs) = leaks p cs
leaks p (Blocks.file true typed ∷ cs) = leak p + leaks typed cs

old_payload-pays : (p : Option ℕ) → length (old_payload p) ≡ leak (pays p)
old_payload-pays none = refl
old_payload-pays (some b) = refl

-- What is left behind a run: what it lost, and the rest.
record Ends (r : Run Store) (w : World) (rest : ℕ → ℕ) (n : ℕ) : Type 0 where
  store : Store
  lost : List ℕ
  runs : r ≡ done store w
  size : length lost ≡ n
  account : (x : ℕ) → count x store.live ≡ count x lost + rest x

none_more :
    {r : Run Store} {w : World} {rest : ℕ → ℕ} (n : ℕ) → Ends r w rest (0 + n) → Ends r w rest n
none_more n e = record {
  store = e.store;
  lost = e.lost;
  runs = e.runs;
  size = e.size ∙ omega arith;
  account = e.account;
}

module _ (fds : List ℕ) (next : ℕ) (input sent : Bytes) where
  abbrev here : World
  here = calm fds next input sent

  -- A call, and then the others.
  then_calls :
      (c : Call) (cs : List Call) (res : Blocks) (s : Store) (rest : ℕ → ℕ) (n : ℕ) (p : Bool)
      → Keeps (run_call c res s here) here rest n p
      → ((res' : Blocks) (s' : Store) (rest' : ℕ → ℕ)
          → Holds (λ x. owned x res' + rest' x) s'
          → Ends (run_calls cs res' s' here) here rest' (leaks (pays res'.payload) cs))
      → Ends (run_calls (c ∷ cs) res s here) here rest (n + leaks p cs)
  unfolding run_calls
  then_calls c cs res s rest n p k go =
      let e = go k.res k.store (λ x. count x k.lost + rest x) k.account in
      record {
        store = e.store;
        lost = k.lost ++ e.lost;
        runs = rw (k.runs, e.runs);
        size =
            length-append k.lost e.lost
            ∙ ap (λ m. m + length e.lost) k.size
            ∙ ap (λ m. n + m) (e.size ∙ ap (λ q. leaks q cs) k.has);
        account = (λ x.
            let q = e.account x in let a = count_append x k.lost e.lost in omega (arith, q, a));
      }

  run_calls-Ends :
      (cs : List Call) (res : Blocks) (s : Store) (rest : ℕ → ℕ)
      → Holds (λ x. owned x res + rest x) s
      → Ends (run_calls cs res s here) here rest (leaks (pays res.payload) cs)
  unfolding run_calls run_call leaks add_to_payload Holds count
  run_calls-Ends [] res s rest h =
      let (s', run, l) = free_response_lem res rest s h in
      record {
        store = s';
        lost = [];
        runs = run here;
        size = refl;
        account = (λ x. let q = l x in omega (arith, q));
      }
  run_calls-Ends (Blocks.header ∷ cs) res s rest h = none_more _ (
      then_calls Blocks.header cs res s rest 0 (pays res.payload)
        (add_header-Keeps fds next input sent res s rest h) (run_calls-Ends cs))
  run_calls-Ends (Blocks.text ∷ cs) res s rest h =
      subst (λ n. Ends (run_calls (Blocks.text ∷ cs) res s here) here rest (n + leaks true cs))
        (old_payload-pays res.payload)
        (then_calls Blocks.text cs res s rest _ true
          (set_payload-Keeps fds next input sent res s rest h) (run_calls-Ends cs))
  run_calls-Ends (Blocks.more ∷ cs) res s rest h = none_more _ (
      then_calls Blocks.more cs res s rest 0 true
        (add_to-Keeps fds next input sent res res.payload s rest refl h) (run_calls-Ends cs))
  run_calls-Ends (Blocks.file false typed ∷ cs) res s rest h = run_calls-Ends cs res s rest h
  run_calls-Ends (Blocks.file true typed ∷ cs) res s rest h =
      subst
        (λ n.
          Ends (run_calls (Blocks.file true typed ∷ cs) res s here) here rest (n + leaks typed cs))
        (old_payload-pays res.payload)
        (then_calls (Blocks.file true typed) cs res s rest _ typed
          (file-Keeps fds next input sent res s rest typed h) (run_calls-Ends cs))

-- Where memory suffices, a response that is made, used by any sequence of calls that add headers,
-- set a payload, extend it to a size above zero or load a file, and freed, is given back: the
-- calls and `free_response` return and free no block that is not allocated, and what is left
-- allocated is what was before and one block for each payload that was replaced by another.
pub lifetime-leaks :
    (cs : List Call) (s : Store) (fds : List ℕ) (next : ℕ) (input sent : Bytes)
    → (s' : Store) × (lost : List ℕ) × (lifetime cs s (calm fds next input sent)
        ≡ done s' (calm fds next input sent))
      × (length lost ≡ leaks false cs)
      × ((x : ℕ) → count x s'.live ≡ count x lost + count x s.live)
unfolding lifetime new_response malloc alloc alloc_or_fatal Holds count of_option of_headers
lifetime-leaks cs s fds next input sent =
    let e =
      run_calls-Ends fds next input sent cs
        (record { response = s.next; buffer = (fresh s).next; headers = []; payload = none })
        (fresh (fresh s)) (λ x. count x s.live) (λ x. omega arith) in
    (e.store, e.lost, e.runs, e.size, e.account)
