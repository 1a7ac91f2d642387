-- ===== src/Parser/Tokens/Words.antt =====
-- `splitOn_c` against a plain definition of the words of a text.
use simple_http.Base.{
  All-append, ℕ, zero, suc, ◌≤◌, ◌<◌, ◌≡◌, ◌≢◌, refl, ◌∙◌, true, false, none, some, List, [], ◌∷◌,
  ◌++◌, Bytes, length, arith, All, append_assoc, append-nil, inl, inr, ◌⊎◌, Bool-cases,
}
use simple_http.Effects.{done}
use mathlib.Core.List.{cons-ne-nil}
use simple_http.Effects.Outcomes.{insert_node-calm, calm}
use simple_http.Parser.Tokens.{is_delim, skip, token, strtok, split_loop, split_on_c}

abbrev flush : Bytes → List Bytes
flush [] = []
flush (c ∷ cs) = (c ∷ cs) ∷ []

module _ (delims : Bytes) where
  -- The maximal runs of bytes that are no delimiters; `cur` is the run that is being read.
  unfoldable pub words : Bytes → Bytes → List Bytes
  words [] cur = flush cur
  words (c ∷ s) cur = elim (is_delim delims c) [
    | true ↦ flush cur ++ words s []
    | false ↦ words s (cur ++ c ∷ [])
  ]

  words_at_delim :
      (c : ℕ) (s cur : Bytes)
      → is_delim delims c ≡ true
      → words (c ∷ s) cur ≡ flush cur ++ words s []
  unfolding words
  words_at_delim c s cur h = rw (h, words)

  words_at_plain :
      (c : ℕ) (s cur : Bytes)
      → is_delim delims c ≡ false
      → words (c ∷ s) cur ≡ words s (cur ++ c ∷ [])
  unfolding words
  words_at_plain c s cur h = rw (h, words)

  words-skip : (s : Bytes) → words s [] ≡ words (skip delims s) []
  unfolding skip
  words-skip [] = refl
  words-skip (c ∷ s) = elim (Bool-cases (is_delim delims c)) [
    | inl d ↦ rw (d, words_at_delim c s [] d) (words-skip s)
    | inr p ↦ rw p
  ]

  words-token :
      (s : Bytes) (x : ℕ) (cur : Bytes)
      → words s (x ∷ cur) ≡ (x ∷ cur ++ (token delims s).0) ∷ words (token delims s).1 []
  unfolding token
  words-token [] x cur = unfold words in rw append-nil
  words-token (c ∷ s) x cur = elim (Bool-cases (is_delim delims c)) [
    | inl d ↦ rw (d, words_at_delim c s (x ∷ cur) d, append-nil)
    | inr p ↦ rw (p, words_at_plain c s (x ∷ cur) p, words-token s x (cur ++ c ∷ []), append_assoc)
  ]

  skip-cases :
      (s : Bytes)
      → ((skip delims s ≡ []) × Unit {0})
        ⊎ ((c : ℕ) × (r : Bytes) × (skip delims s ≡ c ∷ r)
            × (is_delim delims c ≡ false)
            × (length r < length s))
  unfolding skip
  skip-cases [] = inl (refl, tt)
  skip-cases (c ∷ s) = elim (Bool-cases (is_delim delims c)) [
    | inl d ↦ elim (skip-cases s) [
      | inl (e, _) ↦ inl (rw d e, tt)
      | inr (x, r, e, p, lt) ↦ inr (x, r, rw d e, p, omega arith)
    ]
    | inr p ↦ inr (c, s, rw p, p, omega arith)
  ]

  token_shorter : (s : Bytes) → length (token delims s).1 ≤ length s
  unfolding token
  token_shorter [] = omega arith
  token_shorter (c ∷ s) = ground (arith, token_shorter s)

  -- A call of `strtok` finds no word, or the first one, and goes on behind it.
  pub record Step (s t rest : Bytes) : Type 0 where
    pub found : strtok delims s ≡ some (t, rest)
    pub first : words s [] ≡ t ∷ words rest []
    pub shorter : length rest < length s

  pub strtok-cases :
      (s : Bytes)
      → ((strtok delims s ≡ none) × (words s [] ≡ []))
        ⊎ ((t : Bytes) × (rest : Bytes) × Step s t rest)
  unfolding strtok
  strtok-cases s = elim (skip-cases s) [
    | inl (e, _) ↦ inl (rw e, words-skip s ∙ rw e (unfold words in refl))
    | inr (c, r, e, p, lt) ↦ inr (
      c ∷ (token delims r).0,
      (token delims r).1,
      record {
        found = rw (e, p, token);
        first = words-skip s ∙ rw (e, words_at_plain c r [] p) (words-token r c []);
        shorter = omega (arith, token_shorter r);
      },
    )
  ]

  -- From any point of the loop.
  split_loop-words :
      (f : ℕ) (s : Bytes) (head : List Bytes) (fds : List ℕ) (next : ℕ) (input sent : Bytes)
      → length s < f
      → split_loop delims f s head (calm fds next input sent)
        ≡ done (head ++ words s []) (calm fds next input sent)
  unfolding split_loop
  split_loop-words zero s head fds next input sent h = elim h [ ]
  split_loop-words (suc f) s head fds next input sent h = elim (strtok-cases s) [
    | inl (e, no_words) ↦ rw (e, no_words, append-nil, split_loop)
    | inr (t, rest, step) ↦
        rw (step.found, step.first, split_loop, insert_node-calm head t fds next input sent)
          (split_loop-words f rest (head ++ t ∷ []) fds next input sent
              (omega (arith, step.shorter))
            ∙ rw append_assoc)
  ]

  -- Where memory suffices, the list that `splitOn_c` returns is the words of the text: the maximal
  -- runs of bytes that are no delimiters, in order.
  pub split_on_c-words :
      (s : Bytes) (fds : List ℕ) (next : ℕ) (input sent : Bytes)
      → split_on_c delims s (calm fds next input sent)
        ≡ done (words s []) (calm fds next input sent)
  unfolding split_on_c
  split_on_c-words s fds next input sent =
      split_loop-words (suc (length s)) s [] fds next input sent (omega arith)

  -- A word is not empty, and holds no delimiter.
  abbrev pub IsWord : Bytes → Type 0
  IsWord t = (t ≢ []) × All (λ c. is_delim delims c ≡ false) t

  flush-IsWord :
      (cur : Bytes) (rest : List Bytes)
      → All (λ c. is_delim delims c ≡ false) cur
      → All IsWord rest
      → All IsWord (flush cur ++ rest)
  flush-IsWord [] rest h r = r
  flush-IsWord (c ∷ cs) rest h r = ((cons-ne-nil c cs, h), r)

  words-IsWord :
      (s cur : Bytes) → All (λ c. is_delim delims c ≡ false) cur → All IsWord (words s cur)
  words-IsWord [] cur h = unfold words in (rw append-nil at (flush-IsWord cur [] h tt))
  words-IsWord (c ∷ s) cur h = elim (Bool-cases (is_delim delims c)) [
    | inl d ↦ rw (words_at_delim c s cur d) (flush-IsWord cur (words s []) h (words-IsWord s [] tt))
    | inr p ↦
        rw (words_at_plain c s cur p)
          (words-IsWord s (cur ++ c ∷ []) (All-append _ cur (c ∷ []) h (p, tt)))
  ]

  -- Where memory suffices, no element of the list that `splitOn_c` returns is empty or holds a
  -- delimiter.
  pub split_on_c-IsWord :
      (s : Bytes) (fds : List ℕ) (next : ℕ) (input sent : Bytes)
      → (ts : List Bytes) × (split_on_c delims s (calm fds next input sent)
          ≡ done ts (calm fds next input sent))
        × All IsWord ts
  split_on_c-IsWord s fds next input sent =
      (words s [], split_on_c-words s fds next input sent, words-IsWord s [] tt)

  words_run :
      (t rest cur : Bytes)
      → All (λ c. is_delim delims c ≡ false) t
      → words (t ++ rest) cur ≡ words rest (cur ++ t)
  words_run [] rest cur _ = rw append-nil
  words_run (c ∷ t) rest cur (p, ps) =
      rw (words_at_plain c (t ++ rest) cur p, words_run t rest (cur ++ c ∷ []) ps, append_assoc)

  flush_word : (t : Bytes) → t ≢ [] → flush t ≡ t ∷ []
  flush_word [] h = absurd (h refl)
  flush_word (c ∷ cs) h = refl

  -- A plain text in front of a delimiter is the first word.
  pub words_front :
      (t : Bytes) (d : ℕ) (s : Bytes)
      → IsWord t
      → is_delim delims d ≡ true
      → words (t ++ d ∷ s) [] ≡ t ∷ words s []
  words_front t d s (ne, plain) h =
      rw (words_run t (d ∷ s) [] plain, words_at_delim d s t h, flush_word t ne)
