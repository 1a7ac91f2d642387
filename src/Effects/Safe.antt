-- ===== src/Effects/Safe.antt =====
-- Runs that meet no undefined behaviour: where they return, a condition holds of the result; they
-- may abort.
use simple_http.Effects.Returns.{Returns}
use simple_http.Effects.{World, Run, done, aborted, fault, M, bind}

abbrev pub Safe : {A : Type 0} → (A → World → Type 0) → Run A → Type 0
Safe P (done a w) = P a w
Safe P aborted = Unit
Safe P fault = ⊥

pub Safe-bind :
    {A B : Type 0} (P : A → World → Type 0) (Q : B → World → Type 0) (r : Run A) (f : A → M B)
    → Safe P r
    → ((a : A) (w : World) → P a w → Safe Q (f a w))
    → Safe Q (bind r f)
Safe-bind P Q (done a w) f p k = k a w p
Safe-bind P Q aborted f p k = tt
Safe-bind P Q fault f p k = absurd p

pub Safe-mono :
    {A : Type 0} (P Q : A → World → Type 0) (r : Run A)
    → Safe P r
    → ((a : A) (w : World) → P a w → Q a w)
    → Safe Q r
Safe-mono P Q (done a w) p k = k a w p
Safe-mono P Q aborted p k = tt
Safe-mono P Q fault p k = absurd p

pub Returns-Safe : {A : Type 0} (P : A → World → Type 0) (r : Run A) → Returns P r → Safe P r
Returns-Safe P (done a w) p = p
Returns-Safe P aborted p = absurd p
Returns-Safe P fault p = absurd p
