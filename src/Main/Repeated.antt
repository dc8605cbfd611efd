-- ===== src/Main/Repeated.antt =====
-- Options of run that fill an array of the configuration, one entry for each time that they are
-- given, up to the size of the array.
use cruntm.Base.{
  ℕ, zero, suc, ◌≤◌, ◌≡◌, refl, sym, ap, ◌∙◌, inl, inr, List, [], ◌∷◌, ◌++◌, append-nil,
  append_assoc, arith, take, length, map, length-append, take-eq_self, All, ltb, ltb→lt, Bool-cases,
  if◌then◌else◌,
}
use cruntm.Utils.{Doubles}
use cruntm.Main.{Parsed, Settings, go, apply_option, apply_options}

-- An array of the settings: reading it, and replacing it.
pub record Array (A : Type 0) : Type 0 where
  pub entries : Settings → List A
  pub with_entries : List A → Settings → Settings
  pub entries-with_entries : (xs : List A) (s : Settings) → entries (with_entries xs s) ≡ xs
  pub with_entries_twice :
      (xs ys : List A) (s : Settings) → with_entries xs (with_entries ys s) ≡ with_entries xs s
  pub with_entries-entries : (s : Settings) → with_entries (entries s) s ≡ s

take_full :
    {A : Type 0} (n : ℕ) (xs ys : List A) (y : A)
    → n ≤ length xs
    → take n (xs ++ y ∷ ys) ≡ take n (xs ++ ys)
unfolding take
take_full zero xs ys y h = refl
take_full (suc n) [] ys y h = absurd (omega arith)
take_full (suc n) (x ∷ xs) ys y h = ap (◌∷◌ x) (take_full n xs ys y (omega arith))

-- `option r` adds `entry r` where the array has room for it, and else nothing.
abbrev pub Adds : {A R : Type 0} → Doubles → Array A → ℕ → (R → Parsed) → (R → A) → R → Type 0
Adds D array size option entry r =
    (s : Settings)
    → apply_option D (option r) s
      ≡ go (
          if ltb (length (array.entries s)) size
          then array.with_entries (array.entries s ++ entry r ∷ []) s
          else s)

module _ {A R : Type 0} (D : Doubles) (array : Array A) (size : ℕ) (option : R → Parsed)
    (entry : R → A) where
  pub apply_options-Adds :
      (rs : List R) (s : Settings)
      → length (array.entries s) ≤ size
      → All (Adds D array size option entry) rs
      → apply_options D (map option rs) s
        ≡ go (array.with_entries (take size (array.entries s ++ map entry rs)) s)
  unfolding apply_options
  apply_options-Adds [] s h adds =
      let xs = array.entries s in
      let whole = ap (take size) (append-nil xs) ∙ take-eq_self size xs h in
      sym (ap go (ap (λ l. array.with_entries l s) whole ∙ array.with_entries-entries s))
  apply_options-Adds (r ∷ rs) s h adds =
      let xs = array.entries s in
      let more = xs ++ entry r ∷ [] in
      let s' = array.with_entries more s in
      let filled = array.entries-with_entries more s in
      elim (Bool-cases (ltb (length xs) size)) [
        | inl room ↦
            let next =
              apply_options-Adds rs s'
                (rw filled (omega (arith, length-append xs (entry r ∷ []), ltb→lt _ _ room)))
                adds.1 in
            rw (adds.0 s, room, apply_options)
              (next
                ∙ ap go (
                    array.with_entries_twice (take size (array.entries s' ++ map entry rs)) more s
                    ∙ ap (λ l. array.with_entries (take size (l ++ map entry rs)) s) filled
                    ∙ ap (λ l. array.with_entries (take size l) s)
                        (append_assoc xs (entry r ∷ []) (map entry rs))))
        | inr full ↦
            rw (adds.0 s, full, apply_options)
              (apply_options-Adds rs s h adds.1
                ∙ ap (λ l. go (array.with_entries l s))
                    (sym (take_full size xs (map entry rs) (entry r) (ground arith))))
      ]
