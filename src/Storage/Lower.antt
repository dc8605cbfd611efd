-- ===== src/Storage/Lower.antt =====
-- The string of lower directories of an overlay mount.
use cruntm.Base.{
  ℕ, ◌+◌, ◌-◌, ◌<◌, ◌≡◌, refl, ap, ◌∙◌, true, List, [], ◌∷◌, ◌++◌, append_assoc, arith, length,
  length-append, All-append, take-eq_self, All, backwards, ltb,
}
use cruntm.Text.{Bytes, codes}
use cruntm.Text.Laws.{join}
use cruntm.Types.{ImageLayer}
use cruntm.Storage.{append_cut, lower_step, lower_loop, diff_paths, lowerdir_of}

abbrev pub IsNonEmpty : Bytes → Type 0
IsNonEmpty p = 0 < length p

append_cut-eq :
    (size : ℕ) (buffer text : Bytes)
    → length buffer + length text < size
    → append_cut size buffer text ≡ buffer ++ text
unfolding append_cut
append_cut-eq size buffer text h =
    ap (λ (r : Bytes). buffer ++ r) (take-eq_self (size - length buffer - 1) text (omega arith))

lower_step-eq :
    (size : ℕ) (done p : Bytes)
    → 0 < length done
    → length done + 1 + length p < size
    → lower_step size done p ≡ done ++ b':' ∷ p
unfolding lower_step codes
lower_step-eq size done p h k =
    let some_done : ltb 0 (length done) ≡ true = ground arith in
    rw some_done (
      rw (append_cut-eq size done (b':' ∷ []) (omega arith)) (
        append_cut-eq size (done ++ b':' ∷ []) p
          (omega (arith, length-append {A = ℕ} done (b':' ∷ [])))
        ∙ append_assoc {A = ℕ} done (b':' ∷ []) p))

lower_loop-join :
    (size : ℕ) (done p : Bytes) (ps : List Bytes)
    → 0 < length done
    → length done + 1 + length (join b':' (p ∷ ps)) < size
    → lower_loop size done (p ∷ ps) ≡ done ++ b':' ∷ join b':' (p ∷ ps)
unfolding lower_loop join
lower_loop-join size done p [] h k = lower_step-eq size done p h k
lower_loop-join size done p (q ∷ ps) h k =
    let size_append = length-append p (b':' ∷ join b':' (q ∷ ps)) in
    let size_done = length-append done (b':' ∷ p) in
    rw (lower_step-eq size done p h (omega (arith, size_append))) (
      lower_loop-join size (done ++ b':' ∷ p) q ps (omega (arith, size_done))
        (omega (arith, size_append, size_done))
      ∙ append_assoc done (b':' ∷ p) (b':' ∷ join b':' (q ∷ ps)))

lower_loop_start :
    (size : ℕ) (ps : List Bytes)
    → All IsNonEmpty ps
    → length (join b':' ps) < size
    → lower_loop size [] ps ≡ join b':' ps
unfolding lower_loop join lower_step
lower_loop_start size [] h k = refl
lower_loop_start size (p ∷ []) h k = append_cut-eq size [] p (omega arith)
lower_loop_start size (p ∷ q ∷ ps) h k =
    let size_append = length-append p (b':' ∷ join b':' (q ∷ ps)) in
    rw (append_cut-eq size [] p (omega (arith, size_append)))
      (lower_loop-join size p q ps h.0 (omega (arith, size_append)))

backwards-All : (ps : List Bytes) → All IsNonEmpty ps → All IsNonEmpty (backwards ps)
unfolding backwards
backwards-All [] h = tt
backwards-All (p ∷ ps) h =
    All-append IsNonEmpty (backwards ps) (p ∷ []) (backwards-All ps h.1) (h.0, tt)

-- If the paths of the layers are not empty and fit the buffer together with the colons, they stand
-- in the string with a colon between any two, from the last layer of the image to the first.
pub lowerdir_of-join :
    (layers : List ImageLayer)
    → All IsNonEmpty (diff_paths layers)
    → length (join b':' (backwards (diff_paths layers))) < 16384
    → lowerdir_of layers ≡ join b':' (backwards (diff_paths layers))
unfolding lowerdir_of
lowerdir_of-join layers h k =
    lower_loop_start 16384 (backwards (diff_paths layers)) (backwards-All (diff_paths layers) h) k
