-- ===== src/Itoa/Digits.antt =====
-- What `itoa_base` writes for every integer and base: the digits fit the buffer and are read back.
use simple_http.Base.{
  and_split, ℕ, zero, suc, ◌+◌, ◌-◌, ◌*◌, ◌/◌, ◌^◌, ◌≤◌, ◌<◌, ◌≡◌, refl, ap, sym, ◌∙◌, inl, inr,
  Bool, true, ◌&&◌, some, [], ◌∷◌, Bytes, ltb, leb, ◌==◌, if◌then◌else◌, arith, ==_iff, ==_ne,
  Bool-cases, le→leb,
}
use simple_http.Base.Int.{ℤ, pos, negsuc, neg_ℕ, abs, quot, rem, abs-quot, abs-rem, IsInt}
use simple_http.Itoa.{digit_char, digits_loop, put_sign, itoa_base}

abbrev pub digit_value : ℕ → ℕ
digit_value c = if leb c b'9' then c - b'0' else c + 10 - b'A'

-- The number that digits spell behind `n`.
abbrev pub value : ℕ → ℕ → Bytes → ℕ
value base n [] = n
value base n (c ∷ s) = value base (n * base + digit_value c) s

-- The integer that a text spells in a base.
pub read_int : ℕ → Bytes → ℤ
read_int base [] = pos 0
read_int base (c ∷ s) = if c == b'-' then neg_ℕ (value base 0 s) else pos (value base 0 (c ∷ s))

-- A test of every digit below a bound.
each_digit : (ℕ → Bool) → ℕ → Bool
each_digit test zero = true
each_digit test (suc n) = each_digit test n && test n

each_digit_sound : (test : ℕ → Bool) (n d : ℕ) → each_digit test n ≡ true → d < n → test d ≡ true
unfolding each_digit
each_digit_sound test zero d all h = elim h [ ]
each_digit_sound test (suc n) d all h =
    let (front, last) = and_split (each_digit test n) (test n) all in
    elim (Bool-cases (d == n)) [
      | inl same ↦ rw ((==_iff d n).0 same) last
      | inr other ↦ each_digit_sound test n d front (ground arith)
    ]

digit_table : each_digit (λ x. digit_value (digit_char x) == x) 36 ≡ true
unfolding each_digit digit_char
digit_table = refl

digit_value-digit_char : (x : ℕ) → x < 36 → digit_value (digit_char x) ≡ x
digit_value-digit_char x h = (==_iff _ x).0 (each_digit_sound _ 36 x digit_table h)

decimal_table : each_digit (λ x. digit_char x == b'0' + x) 10 ≡ true
unfolding each_digit digit_char
decimal_table = refl

pub digit_char_decimal : (x : ℕ) → x < 10 → digit_char x ≡ b'0' + x
digit_char_decimal x h = (==_iff _ _).0 (each_digit_sound _ 10 x decimal_table h)

digit_range_table : each_digit (λ x. ltb b'-' (digit_char x) && ltb (digit_char x) 91) 36 ≡ true
unfolding each_digit digit_char
digit_range_table = refl

pub digit_char_range : (x : ℕ) → x < 36 → (b'-' < digit_char x) × (digit_char x < 91)
digit_char_range x h = ground (arith, each_digit_sound _ 36 x digit_range_table h)

div-lt-pow : (n b k : ℕ) → 2 ≤ b → n < 2 ^ suc k → n / b < 2 ^ k
div-lt-pow n b k hb h = grind arith

-- Below 2 ^ k no more than k digits are written.
pub digits_loop_total :
    (k room : ℕ) (x : ℤ) (base : ℕ) (out : Bytes)
    → 2 ≤ base
    → abs x < 2 ^ suc k
    → suc k ≤ room
    → (left : ℕ) × (s : Bytes) × (digits_loop room x base out ≡ some (left, s))
      × (room ≤ left + suc k)
unfolding digits_loop
digits_loop_total k zero x base out hb h hr = elim hr [ ]
digits_loop_total zero (suc room) x base out hb h hr =
    (room, digit_char (abs (rem x base)) ∷ out, rw done, omega arith)
  where
    done : (abs (quot x base) == 0) ≡ true
    done = (==_iff _ 0).1 (abs-quot x base ∙ grind arith)
digits_loop_total (suc k) (suc room) x base out hb h hr =
    elim (Bool-cases (abs (quot x base) == 0)) [
      | inl e ↦ (room, digit_char (abs (rem x base)) ∷ out, rw e, omega arith)
      | inr e ↦
          let below : abs (quot x base) < 2 ^ suc k =
            rw abs-quot (div-lt-pow (abs x) base (suc k) hb h) in
          let (left, s, eq, fits) =
            digits_loop_total k room (quot x base) base (digit_char (abs (rem x base)) ∷ out) hb
              below (omega arith) in
          (left, s, rw e eq, omega arith)
    ]

last_digit :
    (x : ℤ) (base : ℕ) (out : Bytes)
    → 2 ≤ base
    → base ≤ 36
    → value base (abs (quot x base)) (digit_char (abs (rem x base)) ∷ out) ≡ value base (abs x) out
last_digit x base out hb hc = ap (λ n. value base n out) spelled
  where
    small : abs (rem x base) < 36
    small = rw abs-rem (grind arith)

    spelled : abs (quot x base) * base + digit_value (digit_char (abs (rem x base))) ≡ abs x
    spelled = rw (digit_value-digit_char _ small, abs-quot, abs-rem) (grind arith)

digits_loop_value :
    (room : ℕ) (x : ℤ) (base : ℕ) (out : Bytes) {left : ℕ} {s : Bytes}
    → 2 ≤ base
    → base ≤ 36
    → digits_loop room x base out ≡ some (left, s)
    → value base 0 s ≡ value base (abs x) out
unfolding digits_loop
digits_loop_value zero x base out hb hc h = ground arith
digits_loop_value (suc room) x base out {s = s} hb hc h =
    elim (Bool-cases (abs (quot x base) == 0)) [
      | inl e ↦
          let d : ℕ = digit_char (abs (rem x base)) in
          let last : s ≡ d ∷ out = cc (rw e at h) in
          let none_left : 0 ≡ abs (quot x base) = sym ((==_iff _ 0).0 e) in
          ap (value base 0) last
          ∙ ap (λ n. value base n (d ∷ out)) none_left
          ∙ last_digit x base out hb hc
      | inr e ↦
          digits_loop_value room (quot x base) base _ hb hc (rw e at h)
          ∙ last_digit x base out hb hc
    ]

-- Every digit lies above the sign in the character table.
digits_loop_chars :
    (room : ℕ) (x : ℤ) (base : ℕ) (out : Bytes) {left : ℕ} {s : Bytes}
    → 2 ≤ base
    → base ≤ 36
    → digits_loop room x base out ≡ some (left, s)
    → (c : ℕ) × (cs : Bytes) × (s ≡ c ∷ cs) × (b'-' < c)
unfolding digits_loop
digits_loop_chars zero x base out hb hc h = ground arith
digits_loop_chars (suc room) x base out {s = s} hb hc h =
    elim (Bool-cases (abs (quot x base) == 0)) [
      | inl e ↦
          let first : s ≡ digit_char (abs (rem x base)) ∷ out = cc (rw e at h) in
          (_, out, first, (digit_char_range _ (rw abs-rem (grind arith))).0)
      | inr e ↦ digits_loop_chars room (quot x base) base _ hb hc (rw e at h)
    ]

pub abs_fits : (x : ℤ) → IsInt x → abs x < 2 ^ 32
abs_fits (pos n) h = omega arith
abs_fits (negsuc n) h = omega arith

read_digits :
    (base : ℕ) {c : ℕ} {cs s : Bytes}
    → s ≡ c ∷ cs
    → b'-' < c
    → read_int base s ≡ pos (value base 0 s)
unfolding read_int
read_digits base {c} {cs} e h = rw (e, ==_ne c b'-' (omega arith))

signed :
    (x : ℤ) (base left : ℕ) (s : Bytes)
    → 2 ≤ base
    → base ≤ 36
    → digits_loop 33 x base [] ≡ some (left, s)
    → 33 ≤ left + 32
    → value base 0 s ≡ abs x
    → read_int base s ≡ pos (value base 0 s)
    → (t : Bytes) × (itoa_base x (pos base) ≡ some t) × (read_int base t ≡ x)
unfolding itoa_base put_sign read_int
signed (pos n) base left s hb hc wrote room spelled read =
    (s, rw (le→leb 2 base hb, le→leb base 36 hc, wrote), read ∙ ap pos spelled)
signed (negsuc n) base zero s hb hc wrote room spelled read = absurd (omega arith)
signed (negsuc n) base (suc left) s hb hc wrote room spelled read =
    (b'-' ∷ s, rw (le→leb 2 base hb, le→leb base 36 hc, wrote), ap neg_ℕ spelled)

-- For every `int` and every base from 2 to 36 `itoa_base` writes nothing before the start of the
-- buffer that `TO_BASE` passes, and the text spells the integer in that base.
pub read_int-itoa_base :
    (x : ℤ) (base : ℕ)
    → IsInt x
    → 2 ≤ base
    → base ≤ 36
    → (s : Bytes) × (itoa_base x (pos base) ≡ some s) × (read_int base s ≡ x)
unfolding itoa_base
read_int-itoa_base x base hx hb hc =
    let (left, s, wrote, room) =
      digits_loop_total 31 33 x base [] hb (abs_fits x hx) (omega arith) in
    let (c, cs, first, above) = digits_loop_chars 33 x base [] hb hc wrote in
    let spelled : value base 0 s ≡ abs x = digits_loop_value 33 x base [] hb hc wrote in
    signed x base left s hb hc wrote room spelled (read_digits base first above)
