-- ===== src/Utils/Split.antt =====
-- split_string cuts a text at each delimiter.
use cruntm.Base.{ℕ, zero, suc, ◌≡◌, refl, ap, List, [], ◌∷◌, take, map, All}
use cruntm.Text.{Bytes}
use cruntm.Text.Laws.{Lacks, strchr-append, strchr-eq-none, join}
use cruntm.Utils.{trim_whitespace, split_string}

-- Texts without the delimiter that are joined by it are found again, trimmed and in order, up to
-- the number of tokens that there is room for; the rest of the text is dropped.
pub split_string-join :
    (d room : ℕ) (p : Bytes) (ps : List Bytes)
    → All (Lacks d) (p ∷ ps)
    → split_string d room (join d (p ∷ ps)) ≡ take room (map trim_whitespace (p ∷ ps))
unfolding split_string join take
split_string-join d zero p ps h = refl
split_string-join d (suc zero) p [] h = rw (strchr-eq-none d p h.0, split_string) refl
split_string-join d (suc (suc room)) p [] h = rw (strchr-eq-none d p h.0, split_string) refl
split_string-join d (suc room) p (q ∷ ps) h =
    rw (strchr-append d p (join d (q ∷ ps)) h.0, split_string)
      (ap (◌∷◌ (trim_whitespace p)) (split_string-join d room q ps h.1))
