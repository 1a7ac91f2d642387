-- ===== src/Printf.antt =====
-- The conversions of C's `snprintf` that the server uses: `%d` of an `int` and `%s` of a string.
use simple_http.Base.{
  take_all, ==_ne, ℕ, zero, suc, ◌+◌, ◌-◌, ◌/◌, ◌%◌, ◌<◌, ◌≡◌, ◌≢◌, refl, Bool, true, false, Option,
  none, some, List, [], ◌∷◌, ◌++◌, Bytes, codes, length, take, All, ◌==◌, if◌then◌else◌, arith,
}
use simple_http.Base.Int.{ℤ, pos, negsuc}

-- The decimal digits of a number below the fuel.
unfoldable pub show_fuel : ℕ → ℕ → Bytes
show_fuel zero n = []
show_fuel (suc f) n =
    let d = b'0' + n % 10 in
    let front = show_fuel f (n / 10) in if n / 10 == 0 then d ∷ [] else front ++ d ∷ []

unfoldable pub show_int : ℤ → Bytes
unfolding show_fuel
show_int (pos n) = show_fuel (suc n) n
show_int (negsuc n) = b'-' ∷ show_fuel (suc (suc n)) (suc n)

pub data Arg : Type 0 where
  num : ℤ → Arg
  str : Bytes → Arg

abbrev pub prepend : Bytes → Option Bytes → Option Bytes
prepend p none = none
prepend p (some s) = some (p ++ s)

-- What one argument prints as under the conversion `c`; `none` is undefined behaviour.
abbrev convert : ℕ → Arg → Option Bytes
convert c (num x) = if c == b'd' then some (show_int x) else none
convert c (str s) = if c == b's' then some s else none

abbrev join : Option Bytes → Option Bytes → Option Bytes
join none _ = none
join (some p) r = prepend p r

-- The flag says that the last byte was `%`.
format_from : Bool → Bytes → List Arg → Option Bytes
format_from true [] args = none
format_from true (c ∷ cs) [] = none
format_from true (c ∷ cs) (a ∷ args) = join (convert c a) (format_from false cs args)
format_from false [] args = some []
format_from false (c ∷ cs) args =
    let plain = prepend (c ∷ []) (format_from false cs args) in
    let conversion = format_from true cs args in if c == b'%' then conversion else plain

unfoldable pub format : Bytes → List Arg → Option Bytes
unfolding format_from
format = format_from false

-- What `snprintf(dst, n, …)` leaves in `dst`, without the terminator, and what it returns.
pub record Printed : Type 0 where
  pub text : Bytes
  pub count : ℕ

unfoldable pub snprintf : ℕ → Bytes → Printed
snprintf n full = record { text = take (n - 1) full; count = length full }

abbrev pub Plain : Bytes → Type 0
Plain = All (λ c. c ≢ b'%')

prepend_nil : (r : Option Bytes) → r ≡ prepend [] r
prepend_nil none = refl
prepend_nil (some s) = refl

prepend_cons :
    (c : ℕ) (p : Bytes) (r : Option Bytes) → prepend (c ∷ []) (prepend p r) ≡ prepend (c ∷ p) r
prepend_cons c p none = refl
prepend_cons c p (some s) = refl

-- Text without `%` is copied.
pub format_plain :
    (p rest : Bytes) (args : List Arg)
    → Plain p
    → format (p ++ rest) args ≡ prepend p (format rest args)
unfolding format
format_plain [] rest args h = prepend_nil (format_from false rest args)
format_plain (c ∷ p) rest args (hc, hp) =
    rw (==_ne c b'%' hc, format_plain p rest args hp)
      (prepend_cons c p (format_from false rest args))

pub format_d :
    (x : ℤ) (rest : Bytes) (args : List Arg)
    → format (codes "%d" ++ rest) (num x ∷ args) ≡ prepend (show_int x) (format rest args)
unfolding format
format_d x rest args = refl

pub format_s :
    (s rest : Bytes) (args : List Arg)
    → format (codes "%s" ++ rest) (str s ∷ args) ≡ prepend s (format rest args)
unfolding format
format_s s rest args = refl

pub format_end : (args : List Arg) → format [] args ≡ some []
unfolding format
format_end args = refl

snprintf_fits : (n : ℕ) (s : Bytes) → length s < n → (snprintf n s).text ≡ s
unfolding snprintf
snprintf_fits n s h = take_all (n - 1) s (omega arith)

-- A text that leaves room for its terminator is printed whole, and counted.
pub snprintf_whole :
    (n : ℕ) (s : Bytes) → length s < n → snprintf n s ≡ record { text = s; count = length s }
unfolding snprintf
snprintf_whole n s h = λ i. record { text = snprintf_fits n s h i; count = length s }

test_format :
    format (codes "HTTP/1.1 %d %s\r\n") (num (pos 404) ∷ str (codes "Not Found") ∷ [])
    ≡ some (codes "HTTP/1.1 404 Not Found\r\n")
unfolding format show_int
test_format = refl
