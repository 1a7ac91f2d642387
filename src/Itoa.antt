-- ===== src/Itoa.antt =====
-- src/itoa.c and src/itoa.h: an integer written into a buffer from its end backwards. The buffer is
-- the number of cells still free before the write position; `none` is a write before its start.
pub mod Digits
pub mod Decimal
use simple_http.Base.{
  ℕ, zero, suc, ◌+◌, ◌-◌, ◌≡◌, refl, Bool, true, false, ◌&&◌, Option, none, some, List, [], ◌∷◌,
  Bytes, codes, leb, ◌==◌, if◌then◌else◌,
}
use simple_http.Base.Int.{ℤ, pos, negsuc, abs, is_neg, quot, rem}

-- sizeof(unsigned) * CHAR_BIT + 2
abbrev pub itoa_base_n : ℕ
itoa_base_n = 34

abbrev get_or : Bytes → ℕ → ℕ
get_or [] i = 0
get_or (c ∷ cs) zero = c
get_or (c ∷ cs) (suc i) = get_or cs i

unfoldable pub digit_char : ℕ → ℕ
digit_char = get_or (codes "0123456789ABCDEFGHIJKLMNOPQRSTUVWXYZ")

-- The `do … while (x)` loop, with the cells that are left after it.
pub digits_loop : ℕ → ℤ → ℕ → Bytes → Option (ℕ × Bytes)
digits_loop zero x base out = none
digits_loop (suc room) x base out =
    let s = digit_char (abs (rem x base)) ∷ out in
    let again = digits_loop room (quot x base) base s in
    if abs (quot x base) == 0 then some (room, s) else again

pub put_sign : Bool → Option (ℕ × Bytes) → Option Bytes
put_sign _ none = none
put_sign false (some (room, s)) = some s
put_sign true (some (zero, s)) = none
put_sign true (some (suc room, s)) = some (b'-' ∷ s)

-- The text that `s` points at on return.
unfoldable pub itoa_base : ℤ → ℤ → Option Bytes
unfolding digits_loop put_sign digit_char
itoa_base x (negsuc b) = some []
itoa_base x (pos base) =
    if leb 2 base && leb base 36
    then put_sign (is_neg x) (digits_loop (itoa_base_n - 1) x base [])
    else some []

itoa_min_binary :
    itoa_base (negsuc 2147483647) (pos 2) ≡ some (codes "-10000000000000000000000000000000")
unfolding itoa_base
itoa_min_binary = refl

itoa_hex : itoa_base (pos 48879) (pos 16) ≡ some (codes "BEEF")
unfolding itoa_base
itoa_hex = refl
