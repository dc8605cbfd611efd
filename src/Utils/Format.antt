-- ===== src/Utils/Format.antt =====
-- format_size takes the largest unit that the number reaches.
use cruntm.Base.{
  ℕ, zero, suc, ◌+◌, ◌^◌, ◌≤◌, ◌<◌, ◌≡◌, refl, ap, ◌∙◌, ◌⊎◌, inl, inr, ◌∷◌, ◌++◌, arith, leb, ◌==◌,
  leb→le, Bool-cases, if◌then◌else◌,
}
use cruntm.Base.Int.{pos}
use cruntm.Text.{snprintf, print_int, decimal}
use cruntm.Utils.{Doubles, unit_name, scale_down, format_size}

-- The value divided k times.
unfoldable pub divided : (D : Doubles) → ℕ → Doubles.Double D → Doubles.Double D
divided D zero value = value
divided D (suc k) value = D.div_1024 (divided D k value)

-- Division of a double by 1024 is exact, and the powers of 1024 are doubles, so the comparisons of the
-- loop are those of the whole number.
pub record ComparesExactly (D : Doubles) : Type 0 where
  pub compares :
      (n k : ℕ)
      → n < 2 ^ 63
      → k < 4
      → D.at_least_1024 (divided D k (D.of_int (pos n))) ≡ leb (1024 ^ suc k) n

-- The index k is that of the largest unit that n reaches: 1024 ^ k fits n, and 1024 ^ (k + 1) does not,
-- but for the last unit.
abbrev pub IsUnitOf : ℕ → ℕ → Type 0
IsUnitOf n k = (k ≤ 4) × ((k ≡ 0) ⊎ (1024 ^ k ≤ n)) × ((k ≡ 4) ⊎ (n < 1024 ^ suc k))

module _ (D : Doubles) (x : ComparesExactly D) (n : ℕ) (fits : n < 2 ^ 63) where
  scale_down_lem :
      (rounds k : ℕ)
      → rounds + k ≡ 4
      → (k ≡ 0) ⊎ (1024 ^ k ≤ n)
      → (j : ℕ) × (scale_down D rounds (divided D k (D.of_int (pos n))) k
          ≡ (divided D j (D.of_int (pos n)), j))
        × IsUnitOf n j
  unfolding scale_down divided
  scale_down_lem zero k e h = (k, refl, (omega arith, h, inl (omega arith)))
  scale_down_lem (suc rounds) k e h =
      let reads = x.compares n k fits (omega arith) in
      elim (Bool-cases (leb (1024 ^ suc k) n)) [
        | inl more ↦
            let (j, same, unit) =
              scale_down_lem rounds (suc k) (omega arith) (inr (leb→le _ _ more)) in
            (
              j,
              rw (reads ∙ more, scale_down)
                  (ap (λ i. scale_down D rounds (divided D (suc k) (D.of_int (pos n))) i)
                      (omega arith)
                    ∙ same),
              unit,
            )
        | inr less ↦ (k, rw (reads ∙ less, scale_down) refl, (omega arith, h, inr (ground arith)))
      ]

  -- A number below 2 ^ 63 is printed in the largest unit that it reaches, B to TB: whole in bytes, and
  -- with two decimals in the others, divided by 1024 for each unit. Comparison and division of doubles
  -- are exact for such numbers.
  pub format_size_lem :
      (size : ℕ)
      → (k : ℕ) × IsUnitOf n k
        × (format_size D (pos n) size
            ≡ snprintf size (
                if k == 0
                then decimal n ++ (b' ' ∷ unit_name k)
                else D.print_two (divided D k (D.of_int (pos n))) ++ (b' ' ∷ unit_name k)))
  unfolding format_size print_int divided
  format_size_lem size =
      let (k, e, unit) = scale_down_lem 4 0 refl (inl refl) in
      (
        k,
        unit,
        ap
            (λ (p : Doubles.Double D × ℕ). snprintf size (
              if p.1 == 0
              then decimal n ++ (b' ' ∷ unit_name p.1)
              else D.print_two p.0 ++ (b' ' ∷ unit_name p.1)))
            e,
      )
