-- ===== src/Utils/Trim.antt =====
-- trim_whitespace takes away blanks at both ends, all of them and nothing else.
use cruntm.Base.{
  ℕ, ◌≡◌, refl, ap, ◌∙◌, inl, inr, true, false, [], ◌∷◌, ◌++◌, arith, All, Bool-cases,
}
use cruntm.Text.{Bytes}
use cruntm.Utils.{
  is_blank, trim_leading, keep_or_end, trim_trailing, trim_behind_first, trim_whitespace,
}

abbrev pub AllBlank : Bytes → Type 0
AllBlank = All (λ c. is_blank c ≡ true)

abbrev pub Starts : Bytes → Type 0
Starts [] = Unit {0}
Starts (c ∷ cs) = is_blank c ≡ false

abbrev pub Ends : Bytes → Type 0
Ends [] = Unit {0}
Ends (c ∷ []) = is_blank c ≡ false
Ends (c ∷ d ∷ ds) = Ends (d ∷ ds)

trim_leading_lem :
    (s : Bytes)
    → (lead : Bytes) × AllBlank lead × (s ≡ lead ++ trim_leading s) × Starts (trim_leading s)
unfolding trim_leading
trim_leading_lem [] = ([], tt, refl, tt)
trim_leading_lem (c ∷ cs) = elim (Bool-cases (is_blank c)) [
  | inl h ↦
      let (lead, b, e, s) = trim_leading_lem cs in (c ∷ lead, (h, b), ground (arith, e), rw h s)
  | inr h ↦ ([], tt, ground arith, rw h h)
]

keep_or_end_lem :
    (c : ℕ) (r trail : Bytes)
    → Ends r
    → AllBlank trail
    → (trail' : Bytes) × AllBlank trail'
      × (c ∷ (r ++ trail) ≡ keep_or_end c r ++ trail')
      × Ends (keep_or_end c r)
keep_or_end_lem c [] trail h b = elim (Bool-cases (is_blank c)) [
  | inl e ↦ (c ∷ trail, (e, b), rw e refl, rw e tt)
  | inr e ↦ (trail, b, rw e refl, rw e e)
]
keep_or_end_lem c (d ∷ ds) trail h b = (trail, b, refl, h)

trim_trailing_lem :
    (s : Bytes)
    → (trail : Bytes) × AllBlank trail × (s ≡ trim_trailing s ++ trail) × Ends (trim_trailing s)
unfolding trim_trailing
trim_trailing_lem [] = ([], tt, refl, tt)
trim_trailing_lem (c ∷ cs) =
    let (trail, b, e, h) = trim_trailing_lem cs in
    let (trail', b', e', h') = keep_or_end_lem c (trim_trailing cs) trail h b in
    (trail', b', ap (◌∷◌ c) e ∙ e', h')

Ends-cons : (c : ℕ) (r : Bytes) → is_blank c ≡ false → Ends r → Ends (c ∷ r)
Ends-cons c [] h k = h
Ends-cons c (d ∷ ds) h k = k

trim_behind_first_lem :
    (s : Bytes)
    → Starts s
    → (trail : Bytes) × AllBlank trail
      × (s ≡ trim_behind_first s ++ trail)
      × Starts (trim_behind_first s)
      × Ends (trim_behind_first s)
trim_behind_first_lem [] h = ([], tt, refl, tt, tt)
trim_behind_first_lem (c ∷ cs) h =
    let (trail, b, e, k) = trim_trailing_lem cs in
    (trail, b, ap (◌∷◌ c) e, h, Ends-cons c (trim_trailing cs) h k)

-- A text is its trimmed text with blanks in front and behind, and the trimmed text neither begins
-- nor ends with a blank.
pub trim_whitespace_lem :
    (s : Bytes)
    → (lead : Bytes) × (trail : Bytes) × (s ≡ lead ++ (trim_whitespace s ++ trail))
      × AllBlank lead
      × AllBlank trail
      × Starts (trim_whitespace s)
      × Ends (trim_whitespace s)
unfolding trim_whitespace
trim_whitespace_lem s =
    let (lead, b, e, h) = trim_leading_lem s in
    let (trail, b', e', h', k) = trim_behind_first_lem (trim_leading s) h in
    (lead, trail, e ∙ ap (λ (r : Bytes). lead ++ r) e', b, b', h', k)
