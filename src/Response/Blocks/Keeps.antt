-- ===== src/Response/Blocks/Keeps.antt =====
-- What each call on a response does to the account of its blocks.
use simple_http.Base.{
  ℕ, ◌+◌, ◌≡◌, refl, Bool, true, false, Option, none, some, List, [], ◌∷◌, ◌++◌, length, arith, ap,
  Bytes,
}
use simple_http.Effects.{World, Run, done, alloc, alloc_or_fatal}
use simple_http.Effects.Outcomes.{calm}
use simple_http.Response.Blocks
use simple_http.Response.Blocks.{
  Store, fresh, HeaderBlocks, Blocks, malloc, new_response, add_header, set_payload, add_to_payload,
  add_file_to_payload, free_headers, free_response, free_option, Call, run_call, run_calls,
  lifetime,
}
use simple_http.Response.Blocks.Account.{one, count, Holds, free_lem}
use simple_http.Response.Blocks.Owned.{of_option, of_headers_append, owned}

abbrev pub pays : Option ℕ → Bool
pays none = false
pays (some b) = true

-- A run that returns with a response whose blocks are allocated, beside a rest and blocks that
-- nobody points to.
pub record Keeps (r : Run (Blocks × Store)) (w : World) (rest : ℕ → ℕ) (n : ℕ) (p : Bool)
    : Type 0 where
  pub res : Blocks
  pub store : Store
  pub lost : List ℕ
  pub runs : r ≡ done (res, store) w
  pub size : length lost ≡ n
  pub has : pays res.payload ≡ p
  pub account : Holds (λ x. owned x res + (count x lost + rest x)) store

-- Another payload; the old one's block is lost.
abbrev pub old_payload : Option ℕ → List ℕ
old_payload none = []
old_payload (some b) = b ∷ []

old_payload_lem : (x : ℕ) (p : Option ℕ) → of_option x p ≡ count x (old_payload p)
unfolding of_option count
old_payload_lem x none = refl
old_payload_lem x (some b) = omega arith

nothing_lost : (x : ℕ) (lost : List ℕ) → length lost ≡ 0 → count x lost ≡ 0
unfolding count
nothing_lost x [] e = refl
nothing_lost x (b ∷ lost) e = absurd (omega (arith, e))

module _ (fds : List ℕ) (next : ℕ) (input sent : Bytes) where
  abbrev pub here : World
  here = calm fds next input sent

  -- A header in the blocks behind the next one.
  abbrev header_at : Store → HeaderBlocks
  header_at s = record {
    node = (fresh (fresh (fresh s))).next;
    data_block = (fresh (fresh (fresh (fresh s)))).next;
    name = (fresh s).next;
    value = (fresh (fresh s)).next;
  }

  abbrev with_header : Blocks → Store → Blocks
  with_header res s = record res { headers = res.headers ++ header_at s ∷ [] }

  pub add_header-Keeps :
      (res : Blocks) (s : Store) (rest : ℕ → ℕ)
      → Holds (λ x. owned x res + rest x) s
      → Keeps (add_header res s here) here rest 0 (pays res.payload)
  unfolding add_header malloc alloc alloc_or_fatal Blocks.with_node Blocks.with_data Holds count
  add_header-Keeps res s rest h =
      let (s', run, k) =
        free_lem s.next (λ x. owned x (with_header res s) + rest x)
          (fresh (fresh (fresh (fresh (fresh s)))))
          (λ x.
            let q = h x in
            let a = of_headers_append x res.headers (header_at s) in omega (arith, q, a)) in
      record {
        res = with_header res s;
        store = s';
        lost = [];
        runs = rw (run here);
        size = refl;
        has = refl;
        account = (λ x. let q = k x in omega (arith, q));
      }

  pub set_payload-Keeps :
      (res : Blocks) (s : Store) (rest : ℕ → ℕ)
      → Holds (λ x. owned x res + rest x) s
      → Keeps (set_payload res s here) here rest (length (old_payload res.payload)) true
  unfolding set_payload malloc alloc alloc_or_fatal Holds count of_option
  set_payload-Keeps res s rest h = record {
    res = record res { payload = some s.next };
    store = fresh s;
    lost = old_payload res.payload;
    runs = refl;
    size = refl;
    has = refl;
    account = (λ x. let q = h x in let o = old_payload_lem x res.payload in omega (arith, q, o));
  }

  pub add_to-Keeps :
      (res : Blocks) (p : Option ℕ) (s : Store) (rest : ℕ → ℕ)
      → p ≡ res.payload
      → Holds (λ x. owned x res + rest x) s
      → Keeps (Blocks.add_to res p s here) here rest 0 true
  unfolding Blocks.add_to set_payload malloc alloc alloc_or_fatal Holds count of_option
  add_to-Keeps res none s rest e h = record {
    res = record res { payload = some s.next };
    store = fresh s;
    lost = [];
    runs = refl;
    size = refl;
    has = refl;
    account = (λ x. let q = h x in let o = ap (of_option x) e in omega (arith, q, o));
  }
  add_to-Keeps res (some old) s rest e h =
      let (s', run, k) =
        free_lem old (λ x. owned x (record res { payload = some s.next }) + rest x) (fresh s)
          (λ x. let q = h x in let o = ap (of_option x) e in omega (arith, q, o)) in
      record {
        res = record res { payload = some s.next };
        store = s';
        lost = [];
        runs = rw (run here);
        size = refl;
        has = refl;
        account = (λ x. let q = k x in omega (arith, q));
      }

  described :
      (res : Blocks) (block : ℕ) (s : Store) (rest : ℕ → ℕ) (typed : Bool)
      → Holds (λ x. owned x res + (one x block + rest x)) s
      → res.payload ≡ none
      → Keeps (Blocks.describe res block s typed here) here rest 0 typed
  unfolding Blocks.describe Holds count of_option
  described res block s rest false h e =
      let (s', run, k) =
        free_lem block (λ x. owned x res + rest x) s (λ x. let q = h x in omega (arith, q)) in
      record {
        res = record res { payload = none };
        store = s';
        lost = [];
        runs = rw (run here);
        size = refl;
        has = refl;
        account = (λ x. let q = k x in let o = ap (of_option x) e in omega (arith, q, o));
      }
  described res block s rest true h e =
      let k1 =
        add_header-Keeps (record res { payload = some block }) (fresh s)
          (λ x. one x s.next + rest x)
          (λ x. let q = h x in let o = ap (of_option x) e in omega (arith, q, o)) in
      let (s2, run, k) =
        free_lem s.next (λ x. owned x k1.res + rest x) k1.store
          (λ x.
            let q = k1.account x in
            let o = nothing_lost x k1.lost k1.size in omega (arith, q, o)) in
      let k2 = add_header-Keeps k1.res s2 rest k in
      record {
        res = k2.res;
        store = k2.store;
        lost = k2.lost;
        runs = rw (k1.runs, run here, k2.runs);
        size = k2.size;
        has = rw (k2.has, k1.has);
        account = k2.account;
      }

  pub file-Keeps :
      (res : Blocks) (s : Store) (rest : ℕ → ℕ) (typed : Bool)
      → Holds (λ x. owned x res + rest x) s
      → Keeps
          (add_file_to_payload true typed res s here)
          here
          rest
          (length (old_payload res.payload))
          typed
  unfolding add_file_to_payload Blocks.describe malloc alloc alloc_or_fatal Holds count of_option
  file-Keeps res s rest typed h =
      let k =
        described (record res { payload = none }) s.next (fresh s)
          (λ x. count x (old_payload res.payload) + rest x) typed
          (λ x. let q = h x in let o = old_payload_lem x res.payload in omega (arith, q, o)) refl in
      record {
        res = k.res;
        store = k.store;
        lost = old_payload res.payload;
        runs = same typed k.runs;
        size = refl;
        has = k.has;
        account = (λ x.
            let q = k.account x in let o = nothing_lost x k.lost k.size in omega (arith, q, o));
      }
    where
      same :
          {r : Run (Blocks × Store)} (b : Bool)
          → Blocks.describe (record res { payload = none }) s.next (fresh s) b here ≡ r
          → Blocks.describe res s.next (fresh s) b here ≡ r
      same true e = e
      same false e = e
