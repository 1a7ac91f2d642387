-- ===== src/Bindings/Sends.antt =====
-- What a handler's write sends.
use simple_http.Base.{
  ℕ, ◌^◌, ◌<◌, ◌≡◌, refl, true, false, Bool-cases, inl, inr, some, List, [], ◌∷◌, ◌++◌, Bytes,
  if◌then◌else◌, leb, leb→le, lt→ltb, length, length-take, take, arith,
}
use simple_http.Base.Int.{ℤ, pos, negsuc, to_int, to_int_small}
use simple_http.Effects.{Run, done, aborted, fault, is_open, write, size_max}
use simple_http.Effects.Outcomes.{calm, write-calm}
use simple_http.Setup.{LuaValue, LuaResult, returned, to_c_int, fits_int}
use simple_http.Bindings
use simple_http.Bindings.{lua_write_}

-- What `write` is offered, by its length.
abbrev pub sends : ℤ → Bytes → ℕ → List ℕ → ℕ → Bytes → Bytes → Run (LuaResult ℤ)
sends fd block len fds next input sent =
    if leb len (length block)
    then (if is_open fd fds
        then done (returned (pos len)) (calm fds next input (sent ++ take len block))
        else aborted)
    else fault

module _ (fd : ℤ) (text : Bytes) (len : ℕ) (fds : List ℕ) (next : ℕ) (input sent : Bytes) where
  write_refused :
      (bytes : Bytes)
      → is_open fd fds ≡ false
      → write fd bytes (calm fds next input sent) ≡ done size_max (calm fds next input sent)
  unfolding write
  write_refused bytes h = rw h

  no_bytes : to_int size_max ≡ negsuc 0
  unfolding to_int
  no_bytes = refl

  offered :
      (block : Bytes)
      → len < 2 ^ 31
      → Bindings.offer fd block (pos len) (calm fds next input sent)
        ≡ sends fd block len fds next input sent
  unfolding Bindings.offer Bindings.written
  offered block small = elim (Bool-cases (leb len (length block))) [
    | inr long ↦ rw long refl
    | inl short ↦ elim (Bool-cases (is_open fd fds)) [
      | inl o ↦
          rw (short, o, write-calm fd (take len block) fds next input sent o)
            (rw (taken short, to_int_small len small, Bindings.written) refl)
      | inr o ↦ rw (short, o, write_refused (take len block) o, no_bytes) refl
    ]
  ]
    where
      taken : leb len (length block) ≡ true → length (take len block) ≡ len
      taken h = omega (arith, length-take len block, leb→le len (length block) h)

  -- Where the arguments are a descriptor in the range of `int`, a text and a length below 2^31,
  -- and every write on an open descriptor is complete, `lua_write_` sends as many bytes of the
  -- text with its terminator as the length says and returns the length; it reads behind the text
  -- for a length above the text's with its terminator, and aborts the process where the descriptor
  -- is not open.
  pub lua_write_-sends :
      (cfd body size : LuaValue)
      → cfd.number ≡ some fd
      → fits_int fd ≡ true
      → body.string ≡ some text
      → size.number ≡ some (pos len)
      → len < 2 ^ 31
      → lua_write_ cfd body size (calm fds next input sent)
        ≡ sends fd (text ++ 0 ∷ []) len fds next input sent
  unfolding lua_write_ Bindings.write_data to_c_int
  lua_write_-sends cfd body size c int d s small =
      rw (c, d, s, int, lt→ltb len (2 ^ 31) small) (offered (text ++ 0 ∷ []) small)
