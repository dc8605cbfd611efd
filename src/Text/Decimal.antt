-- ===== src/Text/Decimal.antt =====
-- Reading back printed numbers: `atoi` of a decimal text.
use cruntm.Base.{All}
use cruntm.Base.{
  ℕ, zero, suc, ◌+◌, ◌/◌, ◌%◌, ◌^◌, ◌≤◌, ◌<◌, ◌≡◌, refl, sym, ap, ◌∙◌, inl, inr, true, false, [],
  ◌∷◌, ◌++◌, arith, length, ltb, Bool-cases,
}
use cruntm.Base.Int.{ℤ, pos, negsuc, IsInt64}
use native.Mathlib.Nat.{pow-suc}
use cruntm.Text.{
  Bytes, is_digit, is_space, read_digits, read_signed, atoi, to_uint16, digits, decimal, print_int,
}

-- Nothing that a digit could continue.
abbrev pub Stops : Bytes → Type 0
Stops [] = Unit {0}
Stops (c ∷ cs) = is_digit c ≡ false

read_digits-digits :
    (f n : ℕ) (out : Bytes) → n < f → read_digits 0 (digits f n out) ≡ read_digits n out
unfolding digits read_digits
read_digits-digits zero n out h = absurd (omega arith)
read_digits-digits (suc f) n out h =
    ground (arith, read_digits-digits f (n / 10) ((b'0' + n % 10) ∷ out))

read_digits_stop : (n : ℕ) (rest : Bytes) → Stops rest → read_digits n rest ≡ n
unfolding read_digits
read_digits_stop n [] h = refl
read_digits_stop n (c ∷ cs) h = ground arith

digits-append : (f n : ℕ) (out rest : Bytes) → digits f n out ++ rest ≡ digits f n (out ++ rest)
unfolding digits
digits-append zero n out rest = refl
digits-append (suc f) n out rest =
    ground (arith, digits-append f (n / 10) ((b'0' + n % 10) ∷ out) rest)

-- The first byte of a printed number is a digit, so `atoi` neither skips it nor takes a sign.
read_head :
    (f n : ℕ) (out : Bytes)
    → (c : ℕ) × (cs : Bytes) × (digits (suc f) n out ≡ c ∷ cs) × (is_digit c ≡ true)
unfolding digits is_digit
read_head zero n out = elim (Bool-cases (ltb n 10)) [
  | inl h ↦ (b'0' + n, out, ground arith, ground arith)
  | inr h ↦ (b'0' + n % 10, out, ground arith, ground arith)
]
read_head (suc f) n out = elim (Bool-cases (ltb n 10)) [
  | inl h ↦ (b'0' + n, out, ground arith, ground arith)
  | inr h ↦
      let (c, cs, e, d) = read_head f (n / 10) ((b'0' + n % 10) ∷ out) in
      (c, cs, ground (arith, e), d)
]

atoi_of_digit :
    (c : ℕ) (cs : Bytes) → is_digit c ≡ true → atoi (c ∷ cs) ≡ pos (read_digits 0 (c ∷ cs))
unfolding atoi read_signed is_space is_digit
atoi_of_digit c cs h = ground arith

pub atoi-decimal : (n : ℕ) (rest : Bytes) → Stops rest → atoi (decimal n ++ rest) ≡ pos n
unfolding decimal
atoi-decimal n rest h =
    let (c, cs, e, d) = read_head n n rest in
    rw (digits-append (suc n) n [] rest) (
      rw e (atoi_of_digit c cs d)
      ∙ ap pos (
          ap (read_digits 0) (sym e)
          ∙ read_digits-digits (suc n) n rest (omega arith)
          ∙ read_digits_stop n rest h))

to_uint16-pos : (n : ℕ) → n < 2 ^ 16 → to_uint16 (pos n) ≡ n
unfolding to_uint16
to_uint16-pos n h = omega arith

-- A printed port number is read back.
pub uint16-atoi-decimal :
    (n : ℕ) (rest : Bytes) → n < 2 ^ 16 → Stops rest → to_uint16 (atoi (decimal n ++ rest)) ≡ n
uint16-atoi-decimal n rest h s = rw (atoi-decimal n rest s) (to_uint16-pos n h)

pub length-digits :
    (k f n : ℕ) (out : Bytes) → n < 10 ^ suc k → length (digits f n out) ≤ suc k + length out
unfolding digits
length-digits k zero n out h = omega arith
length-digits zero (suc f) n out h = ground arith
length-digits (suc k) (suc f) n out h =
    ground (arith, pow-suc 10 (suc k), length-digits k f (n / 10) ((b'0' + n % 10) ∷ out))

-- Twenty characters are enough for what fits an `int64_t`, the sign included.
pub length-print_int : (a : ℤ) → IsInt64 a → length (print_int a) ≤ 20
unfolding print_int decimal
length-print_int (pos n) h = omega (arith, length-digits 18 (suc n) n [], h.upper)
length-print_int (negsuc n) h = omega (arith, length-digits 18 (suc (suc n)) (suc n) [], h.lower)

pub length-decimal_pos : (n : ℕ) → 0 < length (decimal n)
unfolding decimal
length-decimal_pos n = let (c, cs, e, d) = read_head n n [] in rw e (omega arith)

abbrev pub AllDigits : Bytes → Type 0
AllDigits = All (λ c. is_digit c ≡ true)

pub digits-AllDigits : (f n : ℕ) (out : Bytes) → AllDigits out → AllDigits (digits f n out)
unfolding digits
digits-AllDigits zero n out h = h
digits-AllDigits (suc f) n out h = elim (Bool-cases (ltb n 10)) [
  | inl e ↦ rw (e, digits) ((unfold is_digit in ground arith), h)
  | inr e ↦
      rw (e, digits)
        (digits-AllDigits f (n / 10) ((b'0' + n % 10) ∷ out) ((unfold is_digit in ground arith), h))
]

pub read_digits-decimal :
    (n : ℕ) (rest : Bytes) → Stops rest → read_digits 0 (decimal n ++ rest) ≡ n
unfolding decimal
read_digits-decimal n rest h =
    rw (digits-append (suc n) n [] rest)
      (read_digits-digits (suc n) n rest (omega arith) ∙ read_digits_stop n rest h)
