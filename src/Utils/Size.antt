-- ===== src/Utils/Size.antt =====
-- parse_size reads back a printed number with its unit.
use cruntm.Base.{
  ℕ, ◌*◌, ◌^◌, ◌<◌, ◌≡◌, refl, ◌⊎◌, false, ◌||◌, some, [], ◌∷◌, ◌++◌, arith, length, ◌==◌,
  drop-append,
}
use cruntm.Base.Int.{pos}
use cruntm.Text.{Bytes, is_digit, decimal}
use cruntm.Text.Decimal.{length-decimal_pos}
use cruntm.Utils.{Doubles, multiplier_of, parse_size}

-- A byte with which a decimal number cannot go on: no digit, point, exponent or hexadecimal mark.
abbrev pub StopsNumber : Bytes → Type 0
StopsNumber [] = Unit {0}
StopsNumber (c ∷ cs) =
    (is_digit c
      || c == b'.'
      || c == b'e'
      || c == b'E'
      || c == b'x'
      || c == b'X'
      || c == b'p'
      || c == b'P')
    ≡ false

-- strtod reads a decimal integer to its end, and products below 2 ^ 53 are exact.
pub record IsExact (D : Doubles) : Type 0 where
  pub reads :
      (n : ℕ) (rest : Bytes)
      → StopsNumber rest
      → (D.strtod (decimal n ++ rest)).1 ≡ length (decimal n)
  pub scales :
      (n m : ℕ) (rest : Bytes)
      → StopsNumber rest
      → n * m < 2 ^ 53
      → D.scaled (D.strtod (decimal n ++ rest)).0 m ≡ pos (n * m)

multiplier_of-StopsNumber : (s : Bytes) {m : ℕ} → multiplier_of s ≡ some m → StopsNumber s
unfolding multiplier_of is_digit
multiplier_of-StopsNumber [] h = tt
multiplier_of-StopsNumber (c ∷ cs) {m} h = ground arith

-- The text behind a number, and the power of 1024 that it stands for: none, or a letter and
-- whatever follows it.
pub data Unit1024 : Bytes → ℕ → Type 0 where
  bytes : Unit1024 [] 0
  kilo : (c : ℕ) (rest : Bytes) → (c ≡ b'K') ⊎ (c ≡ b'k') → Unit1024 (c ∷ rest) 1
  mega : (c : ℕ) (rest : Bytes) → (c ≡ b'M') ⊎ (c ≡ b'm') → Unit1024 (c ∷ rest) 2
  giga : (c : ℕ) (rest : Bytes) → (c ≡ b'G') ⊎ (c ≡ b'g') → Unit1024 (c ∷ rest) 3
  tera : (c : ℕ) (rest : Bytes) → (c ≡ b'T') ⊎ (c ≡ b't') → Unit1024 (c ∷ rest) 4

multiplier_of-Unit1024 : {s : Bytes} {k : ℕ} → Unit1024 s k → multiplier_of s ≡ some (1024 ^ k)
unfolding multiplier_of
multiplier_of-Unit1024 bytes = refl
multiplier_of-Unit1024 (kilo c rest h) = ground (arith, h)
multiplier_of-Unit1024 (mega c rest h) = ground (arith, h)
multiplier_of-Unit1024 (giga c rest h) = ground (arith, h)
multiplier_of-Unit1024 (tera c rest h) = ground (arith, h)

parse_size-multiplier_of :
    (D : Doubles)
    → IsExact D
    → (n m : ℕ) (suffix : Bytes) → multiplier_of suffix ≡ some m
    → n * m < 2 ^ 53
    → parse_size D (decimal n ++ suffix) ≡ pos (n * m)
unfolding parse_size
parse_size-multiplier_of D x n m suffix h small = ground (
  arith,
  x.reads n suffix (multiplier_of-StopsNumber suffix h),
  x.scales n m suffix (multiplier_of-StopsNumber suffix h) small,
  length-decimal_pos n,
  drop-append (decimal n) suffix,
  h,
)

-- A decimal number counts bytes where nothing is behind it, and where a K, M, G or T in either case
-- follows it, the first, second, third or fourth power of 1024 of them, whatever is behind the letter.
-- The product is below 2 ^ 53. strtod and the product of doubles are exact for such numbers.
pub parse_size-decimal :
    (D : Doubles)
    → IsExact D
    → (n k : ℕ) (suffix : Bytes) → Unit1024 suffix k
    → n * 1024 ^ k < 2 ^ 53
    → parse_size D (decimal n ++ suffix) ≡ pos (n * 1024 ^ k)
parse_size-decimal D x n k suffix h small =
    parse_size-multiplier_of D x n (1024 ^ k) suffix (multiplier_of-Unit1024 h) small
