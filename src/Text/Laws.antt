-- ===== src/Text/Laws.antt =====
-- Laws of the C string functions: cutting at a delimiter, and texts that fit their buffers.
use cruntm.Base.{
  ℕ, ◌-◌, ◌<◌, ◌≡◌, refl, ◌↔◌, inl, inr, Bool, true, false, ◌&&◌, none, some, List, [], ◌∷◌, ◌++◌,
  arith, length, take-eq_self, All, ◌==◌, Bool-cases, Option-cases,
}
use cruntm.Text.{Bytes, snprintf, strchr}

-- The byte does not occur.
abbrev pub Lacks : ℕ → Bytes → Type 0
Lacks d = All (λ c. (c == d) ≡ false)

-- The first occurrence is found behind a text that lacks the byte.
pub strchr-append : (d : ℕ) (s rest : Bytes) → Lacks d s → strchr d (s ++ d ∷ rest) ≡ some (s, rest)
unfolding strchr
strchr-append d [] rest h = ground arith
strchr-append d (c ∷ s) rest h = ground (arith, strchr-append d s rest)

pub strchr-eq-none : (d : ℕ) (s : Bytes) → Lacks d s → strchr d s ≡ none
unfolding strchr
strchr-eq-none d [] h = refl
strchr-eq-none d (c ∷ s) h = ground (arith, strchr-eq-none d s)

-- What is found is what was there: the two parts with the byte between them.
pub strchr_sound :
    (d : ℕ) (s before after : Bytes)
    → strchr d s ≡ some (before, after)
    → (s ≡ before ++ d ∷ after) × Lacks d before
unfolding strchr
strchr_sound d [] before after h = cc
strchr_sound d (c ∷ s) before after h = elim (Bool-cases (c == d)) [
  | inl e ↦ ground arith
  | inr e ↦ elim (Option-cases (strchr d s)) [
    | inl q ↦ absurd (ground arith)
    | inr ((b, a), q) ↦ ground (arith, strchr_sound d s b a q)
  ]
]

-- A text that fits, with its NUL, is not cut.
pub snprintf-eq_self : (n : ℕ) (s : Bytes) → length s < n → snprintf n s ≡ s
unfolding snprintf
snprintf-eq_self n s h = take-eq_self (n - 1) s (omega arith)

-- Equality of texts, as strcmp decides it.
unfoldable pub equal : Bytes → Bytes → Bool
equal [] [] = true
equal (x ∷ xs) (y ∷ ys) = x == y && equal xs ys
equal _ _ = false

pub equal_iff : (a b : Bytes) → (equal a b ≡ true) ↔ (a ≡ b)
unfolding equal
equal_iff [] [] = ground arith
equal_iff [] (y ∷ b) = ground arith
equal_iff (x ∷ a) [] = ground arith
equal_iff (x ∷ a) (y ∷ b) = ground (arith, equal_iff a b)

pub equal_refl : (a : Bytes) → equal a a ≡ true
equal_refl a = (equal_iff a a).1 refl

-- The texts with a delimiter between any two.
unfoldable pub join : ℕ → List Bytes → Bytes
join d [] = []
join d (p ∷ []) = p
join d (p ∷ q ∷ ps) = p ++ d ∷ join d (q ∷ ps)
