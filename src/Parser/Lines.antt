-- ===== src/Parser/Lines.antt =====
-- `fgets` of a stream into a buffer, and the string that the buffer then holds.
use simple_http.Base.{
  length-append, ap, ℕ, zero, suc, ◌<◌, ◌≡◌, refl, Option, none, some, [], ◌∷◌, ◌++◌, Bytes, ◌==◌,
  if◌then◌else◌, length, arith,
}

-- At most `n` bytes, up to and with the first line feed, and what is left.
unfoldable pub read_line : ℕ → Bytes → Bytes × Bytes
read_line n [] = ([], [])
read_line zero (c ∷ s) = ([], c ∷ s)
read_line (suc n) (c ∷ s) =
    let (line, rest) = read_line n s in if c == b'\n' then (c ∷ [], s) else (c ∷ line, rest)

-- A string ends at its first zero byte.
unfoldable pub c_string : Bytes → Bytes
c_string [] = []
c_string (c ∷ s) = if c == 0 then [] else c ∷ c_string s

-- sizeof(buffer) - 1
abbrev pub line_max : ℕ
line_max = 1023

-- `fgets(buffer, 1024, fp)`: the string in the buffer and the rest of the stream, or NULL at its end.
unfoldable pub fgets : Bytes → Option (Bytes × Bytes)
unfolding read_line c_string
fgets [] = none
fgets (c ∷ s) = let (line, rest) = read_line line_max (c ∷ s) in some (c_string line, rest)

-- Nothing is lost and nothing is read twice.
pub read_line_split : (n : ℕ) (s : Bytes) → (read_line n s).0 ++ (read_line n s).1 ≡ s
unfolding read_line
read_line_split n [] = refl
read_line_split zero (c ∷ s) = refl
read_line_split (suc n) (c ∷ s) = ground (arith, read_line_split n s)

pub read_line_shorter :
    (n : ℕ) (c : ℕ) (s : Bytes) → length (read_line (suc n) (c ∷ s)).1 < length (c ∷ s)
unfolding read_line
read_line_shorter n c s =
    ground
      (arith, ap length (read_line_split n s), length-append (read_line n s).0 (read_line n s).1)
