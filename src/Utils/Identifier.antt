-- ===== src/Utils/Identifier.antt =====
-- The identifiers of containers.
use cruntm.Base.{
  map, ◌+◌, ℕ, zero, suc, ◌-◌, ◌%◌, ◌<◌, ◌∙◌, ltb, false, if◌then◌else◌, ◌≡◌, refl, ap, ◌⊎◌, inl,
  inr, Bool, true, ◌&&◌, ◌||◌, [], ◌∷◌, arith, take, length, All, leb, Bool-cases,
}
use cruntm.Text.{Bytes, codes}
use cruntm.Host.{Host, Trace, call, fopen, fread, uninitialised, rand, is_failure, result}
use cruntm.Utils.{overwrite, hex_digit, hex_text, random_text, generate_id}

-- One of 0123456789abcdef.
abbrev pub is_hex : ℕ → Bool
is_hex c = leb b'0' c && leb c b'9' || leb b'a' c && leb c b'f'

hex_digit-is_hex : (n : ℕ) → n < 16 → is_hex (hex_digit n) ≡ true
unfolding hex_digit
hex_digit-is_hex n h = ground arith

abbrev pub AllHex : Bytes → Type 0
AllHex = All (λ c. is_hex c ≡ true)

hex_text-AllHex : (bs : Bytes) → AllHex (hex_text bs)
unfolding hex_text
hex_text-AllHex [] = tt
hex_text-AllHex (b ∷ bs) = (hex_digit-is_hex (b % 16) (omega arith), hex_text-AllHex bs)

take-AllHex : (n : ℕ) (s : Bytes) → AllHex s → AllHex (take n s)
unfolding take
take-AllHex zero s h = tt
take-AllHex (suc n) [] h = tt
take-AllHex (suc n) (c ∷ s) h = (h.0, take-AllHex n s h.1)

length-hex_text : (bs : Bytes) → length (hex_text bs) ≡ length bs
unfolding hex_text
length-hex_text [] = refl
length-hex_text (b ∷ bs) = ap suc (length-hex_text bs)

length-overwrite : (n : ℕ) (bytes old : Bytes) → length (overwrite n bytes old) ≡ n
unfolding overwrite
length-overwrite zero bytes old = refl
length-overwrite (suc n) [] [] = ap suc (length-overwrite n [] [])
length-overwrite (suc n) [] (o ∷ old) = ap suc (length-overwrite n [] old)
length-overwrite (suc n) (b ∷ bytes) [] = ap suc (length-overwrite n bytes [])
length-overwrite (suc n) (b ∷ bytes) (o ∷ old) = ap suc (length-overwrite n bytes old)

length-take : (n : ℕ) (s : Bytes) → length (take n s) ≡ (if ltb n (length s) then n else length s)
unfolding take
length-take zero [] = refl
length-take zero (c ∷ s) = ground arith
length-take (suc n) [] = ground arith
length-take (suc n) (c ∷ s) = ground (arith, length-take n s)

-- The digits of the bytes of an array of 32.
digits_of_lem :
    (size : ℕ) (bytes : Bytes)
    → length bytes ≡ 32
    → let text = take (size - 1) (hex_text bytes) in
      AllHex text × (length text ≡ (if ltb (size - 1) 32 then size - 1 else 32))
digits_of_lem size bytes h = (
  take-AllHex (size - 1) _ (hex_text-AllHex bytes),
  length-take (size - 1) (hex_text bytes)
      ∙ ap (λ n. if ltb (size - 1) n then size - 1 else n) (length-hex_text bytes ∙ h),
)

-- The number that a hexadecimal digit stands for.
abbrev pub digit_value : ℕ → ℕ
digit_value c = if leb b'a' c then c - b'a' + 10 else c - b'0'

digit_value-hex_digit : (n : ℕ) → n < 16 → digit_value (hex_digit n) ≡ n
unfolding hex_digit
digit_value-hex_digit n h = ground (arith, h)

-- The digits read back.
digit_value-hex_text :
    (n : ℕ) (bytes : Bytes)
    → map digit_value (take n (hex_text bytes)) ≡ take n (map (λ b. b % 16) bytes)
unfolding hex_text take
digit_value-hex_text zero bytes = refl
digit_value-hex_text (suc n) [] = refl
digit_value-hex_text (suc n) (b ∷ bytes) =
    rw (digit_value-hex_digit (b % 16) (omega arith), digit_value-hex_text n bytes) refl

module _ (H : Host) where
  random_text_lem :
      (n : ℕ) (t : Trace) → AllHex (random_text H n t).0 × (length (random_text H n t).0 ≡ n)
  unfolding random_text
  random_text_lem zero t = (tt, refl)
  random_text_lem (suc n) t =
      let (h, l) = random_text_lem n (call H rand t).1 in
      ((hex_digit-is_hex (result (H.answer t rand) % 16) (omega arith), h), omega (arith, l))

  -- The text consists of hexadecimal digits. If /dev/urandom cannot be opened there are as many as
  -- the buffer has room for in front of the NUL. If it can, there are as many again, but not more than
  -- 32, however few bytes the read delivers, and they are the remainders by 16 of the bytes of the
  -- array behind the read. The buffer is not empty.
  pub generate_id_lem :
      (size : ℕ) (t : Trace)
      → 0 < size
      → let text = (generate_id H size t).0 in
        let opened = H.answer t (fopen (codes "/dev/urandom") (codes "r")) in
        let u = (call H (fopen (codes "/dev/urandom") (codes "r")) t).1 in
        let bytes =
          overwrite 32 (H.input u (fread (result opened) 32)) (H.input u (uninitialised 32)) in
        AllHex text
        × (length text < size)
        × (((is_failure opened ≡ true) × (length text ≡ size - 1))
            ⊎ ((is_failure opened ≡ false)
                × (length text ≡ (if ltb (size - 1) 32 then size - 1 else 32))
                × (map digit_value text ≡ take (size - 1) (map (λ b. b % 16) bytes))))
  unfolding generate_id
  generate_id_lem size t pos_size =
      let source = fopen (codes "/dev/urandom") (codes "r") in
      elim (Bool-cases (is_failure (H.answer t source))) [
        | inl e ↦
            let (a, l) = random_text_lem (size - 1) _ in
            rw (e, generate_id) (a, omega (arith, l, pos_size), inl (refl, l))
        | inr e ↦
            let (a, l) = digits_of_lem size _ (length-overwrite 32 _ _) in
            rw (e, generate_id)
              (a, ground (arith, l, pos_size), inr (refl, l, digit_value-hex_text (size - 1) _))
      ]
