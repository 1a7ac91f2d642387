-- ===== src/Effects/Outcomes.antt =====
-- The surroundings where nothing fails: memory never runs out and every write is complete.
use simple_http.Base.{ℕ, refl, ◌≡◌, true, List, [], ◌∷◌, ◌++◌, Bytes, length}
use simple_http.Base.Int.{ℤ}
use simple_http.Effects.{World, done, is_open, write, insert_node, alloc}

abbrev pub calm : List ℕ → ℕ → Bytes → Bytes → World
calm fds next input sent = record {
  allocs = [];
  writes = [];
  dups = [];
  fds = fds;
  next_fd = next;
  input = input;
  sent = sent;
}

pub write-calm :
    (fd : ℤ) (offered : Bytes) (fds : List ℕ) (next : ℕ) (input sent : Bytes)
    → is_open fd fds ≡ true
    → write fd offered (calm fds next input sent)
      ≡ done (length offered) (calm fds next input (sent ++ offered))
unfolding write
write-calm fd offered fds next input sent h = rw h

pub insert_node-calm :
    {A : Type 0} (xs : List A) (x : A) (fds : List ℕ) (next : ℕ) (input sent : Bytes)
    → insert_node xs x (calm fds next input sent) ≡ done (xs ++ x ∷ []) (calm fds next input sent)
unfolding insert_node alloc
insert_node-calm xs x fds next input sent = refl
