-- ===== src/Effects/Returns.antt =====
-- Total correctness of effects: a run that returns, neither aborts nor meets undefined behaviour,
-- and whose result satisfies a condition.
use simple_http.Base.{◌∙◌, ◌≡◌, refl, Bool, true, false, List}
use simple_http.Effects.{
  granted, insert_at, World, Run, done, aborted, fault, M, bind, alloc, insert_node,
}

abbrev pub Returns : {A : Type 0} → (A → World → Type 0) → Run A → Type 0
Returns P (done a w) = P a w
Returns P aborted = ⊥
Returns P fault = ⊥

pub Returns-bind :
    {A B : Type 0} (P : A → World → Type 0) (Q : B → World → Type 0) (r : Run A) (f : A → M B)
    → Returns P r
    → ((a : A) (w : World) → P a w → Returns Q (f a w))
    → Returns Q (bind r f)
Returns-bind P Q (done a w) f p k = k a w p
Returns-bind P Q aborted f p k = absurd p
Returns-bind P Q fault f p k = absurd p

pub Returns-mono :
    {A : Type 0} (P Q : A → World → Type 0) (r : Run A)
    → Returns P r
    → ((a : A) (w : World) → P a w → Q a w)
    → Returns Q r
Returns-mono P Q (done a w) p k = k a w p
Returns-mono P Q aborted p k = absurd p
Returns-mono P Q fault p k = absurd p

-- What an allocation leaves alone.
pub record SameIo (w w' : World) : Type 0 where
  pub fds : w'.fds ≡ w.fds
  pub next_fd : w'.next_fd ≡ w.next_fd
  pub input : w'.input ≡ w.input
  pub sent : w'.sent ≡ w.sent

pub SameIo-refl : (w : World) → SameIo w w
SameIo-refl w = record { fds = refl; next_fd = refl; input = refl; sent = refl }

pub SameIo-trans : {u v w : World} → SameIo u v → SameIo v w → SameIo u w
SameIo-trans a b = record {
  fds = b.fds ∙ a.fds;
  next_fd = b.next_fd ∙ a.next_fd;
  input = b.input ∙ a.input;
  sent = b.sent ∙ a.sent;
}

pub alloc-SameIo : (w : World) → Returns (λ _ w'. SameIo w w') (alloc w)
unfolding alloc
alloc-SameIo w = record { fds = refl; next_fd = refl; input = refl; sent = refl }

insert_at-SameIo :
    {A : Type 0} (b : Bool) (xs : List A) (x : A) (w : World)
    → Returns (λ _ w'. SameIo w w') (insert_at b xs x w)
unfolding insert_at alloc
insert_at-SameIo false xs x w = SameIo-refl w
insert_at-SameIo true xs x w = record { fds = refl; next_fd = refl; input = refl; sent = refl }

pub insert_node-SameIo :
    {A : Type 0} (xs : List A) (x : A) (w : World)
    → Returns (λ _ w'. SameIo w w') (insert_node xs x w)
unfolding insert_node alloc
insert_node-SameIo xs x w =
    Returns-mono _ _ (insert_at (granted w.allocs) xs x _)
      (insert_at-SameIo (granted w.allocs) xs x _)
      (λ _ w' same. record {
        fds = same.fds;
        next_fd = same.next_fd;
        input = same.input;
        sent = same.sent;
      })
