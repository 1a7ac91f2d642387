-- ===== src/Base/Int.antt =====
-- C's `int`: a signed number with division and remainder that truncate towards zero.
use simple_http.Base.Tests.{ltb, ◌==◌, ==_refl, if◌then◌else◌}
use Prim.Native.Nat.{ℕ, zero, suc, ◌-◌, ◌/◌, ◌%◌, ◌^◌, ◌<◌}
use mathlib.Core.Path.{◌≡◌, refl}
use mathlib.Core.Bool.{Bool, true, false}
use native.Mathlib.Omega.{arith}

-- `negsuc n` is -(n + 1).
pub data ℤ : Type 0 where
  pos : ℕ → ℤ
  negsuc : ℕ → ℤ

-- -n
abbrev pub neg_ℕ : ℕ → ℤ
neg_ℕ zero = pos 0
neg_ℕ (suc n) = negsuc n

-- `abs(x)`, for an `x` whose absolute value is representable
abbrev pub abs : ℤ → ℕ
abs (pos n) = n
abs (negsuc n) = suc n

abbrev pub is_neg : ℤ → Bool
is_neg (pos n) = false
is_neg (negsuc n) = true

-- C's `x / d` and `x % d` at a positive divisor
abbrev pub quot : ℤ → ℕ → ℤ
quot (pos n) d = pos (n / d)
quot (negsuc n) d = neg_ℕ (suc n / d)

abbrev pub rem : ℤ → ℕ → ℤ
rem (pos n) d = pos (n % d)
rem (negsuc n) d = neg_ℕ (suc n % d)

pub abs-neg_ℕ : (n : ℕ) → abs (neg_ℕ n) ≡ n
abs-neg_ℕ zero = refl
abs-neg_ℕ (suc n) = refl

pub abs-quot : (x : ℤ) (d : ℕ) → abs (quot x d) ≡ abs x / d
abs-quot (pos n) d = refl
abs-quot (negsuc n) d = abs-neg_ℕ (suc n / d)

pub abs-rem : (x : ℤ) (d : ℕ) → abs (rem x d) ≡ abs x % d
abs-rem (pos n) d = refl
abs-rem (negsuc n) d = abs-neg_ℕ (suc n % d)

-- The values of a 32-bit `int`.
abbrev pub IsInt : ℤ → Type 0
IsInt (pos n) = n < 2 ^ 31
IsInt (negsuc n) = n < 2 ^ 31

-- A `size_t` handed to an `int` parameter: the low 32 bits, read as a signed number.
abbrev pub int_of_word : ℕ → ℤ
int_of_word w = if ltb w (2 ^ 31) then pos w else negsuc (2 ^ 32 - w - 1)

unfoldable pub to_int : ℕ → ℤ
to_int n = int_of_word (n % 2 ^ 32)

pub to_int-IsInt : (n : ℕ) → IsInt (to_int n)
unfolding to_int
to_int-IsInt n = ground arith

pub to_int_small : (n : ℕ) → n < 2 ^ 31 → to_int n ≡ pos n
unfolding to_int
to_int_small n h = ground arith

abbrev pub eq_int : ℤ → ℤ → Bool
eq_int (pos a) (pos b) = a == b
eq_int (negsuc a) (negsuc b) = a == b
eq_int _ _ = false

pub eq_int_sound : (a b : ℤ) → eq_int a b ≡ true → a ≡ b
eq_int_sound (pos a) (pos b) h = ground arith
eq_int_sound (negsuc a) (negsuc b) h = ground arith
eq_int_sound (pos a) (negsuc b) h = ground arith
eq_int_sound (negsuc a) (pos b) h = ground arith

pub eq_int_refl : (a : ℤ) → eq_int a a ≡ true
eq_int_refl (pos a) = ==_refl a
eq_int_refl (negsuc a) = ==_refl a
