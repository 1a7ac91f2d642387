-- ===== src/Parser/Tokens/Total.antt =====
-- `splitOn_c` returns whatever memory does, and touches nothing but memory.
use simple_http.Base.{ℕ, zero, suc, ◌<◌, List, [], Bytes, length, arith, inl, inr}
use simple_http.Effects.{World, insert_node}
use simple_http.Effects.Returns.{
  Returns, Returns-bind, Returns-mono, SameIo, SameIo-refl, SameIo-trans, insert_node-SameIo,
}
use simple_http.Parser.Tokens.{split_loop, split_on_c}
use simple_http.Parser.Tokens.Words.{strtok-cases}

module _ (delims : Bytes) where
  split_loop-SameIo :
      (f : ℕ) (s : Bytes) (head : List Bytes) (w : World)
      → length s < f
      → Returns (λ _ w'. SameIo w w') (split_loop delims f s head w)
  unfolding split_loop
  split_loop-SameIo zero s head w h = elim h [ ]
  split_loop-SameIo (suc f) s head w h = elim (strtok-cases delims s) [
    | inl (e, _) ↦ rw (e, split_loop) (SameIo-refl w)
    | inr (t, rest, step) ↦
        rw (step.found, split_loop)
          (Returns-bind (λ _ w'. SameIo w w') _ (insert_node head t w) _
            (insert_node-SameIo head t w)
            (λ head' w' same.
              Returns-mono _ _ (split_loop delims f rest head' w')
                (split_loop-SameIo f rest head' w' (omega (arith, step.shorter)))
                (λ _ w'' more. SameIo-trans same more)))
  ]

  pub split_on_c-SameIo :
      (s : Bytes) (w : World) → Returns (λ _ w'. SameIo w w') (split_on_c delims s w)
  unfolding split_on_c
  split_on_c-SameIo s w = split_loop-SameIo (suc (length s)) s [] w (omega arith)
