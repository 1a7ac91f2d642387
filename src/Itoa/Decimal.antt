-- ===== src/Itoa/Decimal.antt =====
-- In base ten `itoa_base` writes what `%d` prints.
use simple_http.Base.{
  ℕ, zero, suc, ◌+◌, ◌%◌, ◌≤◌, ◌<◌, ◌≡◌, ◌∙◌, inl, inr, some, [], ◌∷◌, ◌++◌, Bytes, ◌==◌, arith,
  Bool-cases, append_assoc, append-nil,
}
use simple_http.Base.Int.{ℤ, pos, negsuc, abs, quot, rem, abs-quot, abs-rem, IsInt}
use simple_http.Printf.{show_int, show_fuel}
use simple_http.Itoa.{digit_char, digits_loop, put_sign, itoa_base}
use simple_http.Itoa.Digits.{digits_loop_total, abs_fits, digit_char_decimal}

digits_loop_decimal :
    (room f : ℕ) (x : ℤ) (out : Bytes) {left : ℕ} {s : Bytes}
    → abs x < f
    → digits_loop room x 10 out ≡ some (left, s)
    → s ≡ show_fuel f (abs x) ++ out
unfolding digits_loop show_fuel
digits_loop_decimal zero f x out hf h = ground arith
digits_loop_decimal (suc room) zero x out hf h = absurd (omega arith)
digits_loop_decimal (suc room) (suc f) x out {s = s} hf h =
    elim (Bool-cases (abs (quot x 10) == 0)) [
      | inl e ↦
          let last : s ≡ digit_char (abs (rem x 10)) ∷ out = cc (rw e at h) in
          rw (last, digit, rw abs-quot at e)
      | inr e ↦
          let more : s ≡ show_fuel f (abs (quot x 10)) ++ digit_char (abs (rem x 10)) ∷ out =
            digits_loop_decimal room f (quot x 10) _
              (rw abs-quot (ground (arith, rw abs-quot at e))) (rw e at h) in
          rw (more, digit, abs-quot, rw abs-quot at e, append_assoc)
    ]
  where
    digit : digit_char (abs (rem x 10)) ≡ b'0' + abs x % 10
    digit = rw abs-rem (digit_char_decimal (abs x % 10) (omega arith))

-- `itoa_base(s, x, 10)` and `snprintf(s, n, "%d", x)` write the same text, for every `int`.
pub itoa_base-show_int : (x : ℤ) → IsInt x → itoa_base x (pos 10) ≡ some (show_int x)
unfolding itoa_base show_int put_sign
itoa_base-show_int x hx =
    let (left, s, wrote, room) =
      digits_loop_total 31 33 x 10 [] (omega arith) (abs_fits x hx) (omega arith) in
    signed x left s wrote room
      (digits_loop_decimal 33 (suc (abs x)) x [] (omega arith) wrote ∙ append-nil _)
  where
    signed :
        (x : ℤ) (left : ℕ) (s : Bytes)
        → digits_loop 33 x 10 [] ≡ some (left, s)
        → 33 ≤ left + 32
        → s ≡ show_fuel (suc (abs x)) (abs x)
        → itoa_base x (pos 10) ≡ some (show_int x)
    signed (pos n) left s wrote room e = rw (wrote, e)
    signed (negsuc n) zero s wrote room e = absurd (omega arith)
    signed (negsuc n) (suc left) s wrote room e = rw (wrote, e)
