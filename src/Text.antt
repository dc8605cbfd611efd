-- ===== src/Text.antt =====
-- C strings as lists of bytes without the final NUL, and the functions of the C library by which
-- the program builds and reads them: snprintf, strncpy, strchr, strrchr and atoi.
pub mod Decimal
pub mod Laws
use Prim.Native.Char.{code}
use cruntm.Base.{
  ℕ, zero, suc, ◌+◌, ◌-◌, ◌*◌, ◌/◌, ◌%◌, ◌^◌, String, Bool, true, false, ◌&&◌, ◌||◌, Option, none,
  some, List, [], ◌∷◌, ◌++◌, take, ltb, leb, ◌==◌, if◌then◌else◌,
}
use cruntm.Base.Int.{ℤ, pos, negsuc}

abbrev pub Bytes : Type 0
Bytes = List ℕ

-- The bytes of an ASCII literal.
unfoldable pub codes : String → Bytes
codes String.[] = []
codes (String.◌∷◌ c s) = code c ∷ codes s

-- What a buffer of `size` bytes holds after snprintf: the text, cut to leave room for the NUL.
unfoldable pub snprintf : ℕ → Bytes → Bytes
snprintf size text = take (size - 1) text

-- strncpy of at most `n` bytes into a longer buffer of zeros.
unfoldable pub strncpy : ℕ → Bytes → Bytes
strncpy n s = take n s

abbrev split_step : ℕ → Option (Bytes × Bytes) → Option (Bytes × Bytes)
split_step c none = none
split_step c (some (before, after)) = some (c ∷ before, after)

-- The text before and behind the first `d`; the code writes a NUL over that byte and uses both.
unfoldable pub strchr : ℕ → Bytes → Option (Bytes × Bytes)
strchr d [] = none
strchr d (c ∷ cs) = let rest = split_step c (strchr d cs) in if c == d then some ([], cs) else rest

-- The text before the last `d`.
unfoldable pub strrchr : ℕ → Bytes → Option Bytes
strrchr d [] = none
strrchr d (c ∷ cs) = elim (strrchr d cs) [
  | some before ↦ some (c ∷ before)
  | none ↦ if c == d then some [] else none
]

unfoldable pub is_digit : ℕ → Bool
is_digit c = leb b'0' c && leb c b'9'

-- isspace in the C locale.
unfoldable pub is_space : ℕ → Bool
is_space c = c == b' ' || leb 9 c && leb c 13

unfoldable pub read_digits : ℕ → Bytes → ℕ
unfolding is_digit
read_digits acc [] = acc
read_digits acc (c ∷ cs) =
    let rest = read_digits (acc * 10 + (c - b'0')) cs in if is_digit c then rest else acc

-- -n
unfoldable pub minus : ℕ → ℤ
minus zero = pos zero
minus (suc n) = negsuc n

-- atoi behind the white space, where the value fits an int.
unfoldable pub read_signed : Bytes → ℤ
unfolding read_digits minus
read_signed [] = pos 0
read_signed (c ∷ cs) =
    if c == b'-'
    then minus (read_digits 0 cs)
    else if c == b'+'
    then pos (read_digits 0 cs)
    else pos (read_digits 0 (c ∷ cs))

unfoldable pub atoi : Bytes → ℤ
unfolding read_signed is_space
atoi [] = pos 0
atoi (c ∷ cs) = let rest = atoi cs in if is_space c then rest else read_signed (c ∷ cs)

-- The conversion to `uint16_t`.
unfoldable pub to_uint16 : ℤ → ℕ
to_uint16 (pos n) = n % 2 ^ 16
to_uint16 (negsuc n) = (2 ^ 16 - 1) - n % 2 ^ 16

unfoldable pub digits : ℕ → ℕ → Bytes → Bytes
digits zero n out = out
digits (suc f) n out = elim (ltb n 10) [
  | true ↦ (b'0' + n) ∷ out
  | false ↦ digits f (n / 10) ((b'0' + n % 10) ∷ out)
]

-- `%u`: the fuel is more than the number of digits.
unfoldable pub decimal : ℕ → Bytes
decimal n = digits (suc n) n []

-- `%d` and `%ld`.
unfoldable pub print_int : ℤ → Bytes
print_int (pos n) = decimal n
print_int (negsuc n) = b'-' ∷ decimal (suc n)

-- The `int` that has the bits of an `unsigned`, by which `%d` prints a `uid_t`.
unfoldable pub to_int32 : ℕ → ℤ
to_int32 n = if ltb n (2 ^ 31) then pos n else negsuc (2 ^ 32 - n - 1)
