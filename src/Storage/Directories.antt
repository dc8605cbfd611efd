-- ===== src/Storage/Directories.antt =====
-- mkdir_recursive makes every directory on the way.
use cruntm.Base.{
  ℕ, ◌<◌, ◌≡◌, refl, ◌⊎◌, inl, inr, Bool, true, false, [], ◌∷◌, ◌++◌, append-nil, append_assoc,
  arith, length, ◌==◌, Bool-cases,
}
use cruntm.Text.{Bytes, snprintf}
use cruntm.Types.{max_path_len, ok, esyscall}
use cruntm.Host.{Host, Trace, Reply, call, mkdir}
use cruntm.Storage.{strip_slash, is_refused, mkdir_walk, mkdir_from, mkdir_recursive}

-- The documented behaviour of mkdir: behind a call that succeeds or fails with EEXIST the path is
-- there, and no mkdir takes a path away.
pub record IsFileSystem (H : Host) (present : Trace → Bytes → Bool) : Type 0 where
  pub makes :
      (t : Trace) (p : Bytes) (m : ℕ)
      → is_refused (H.answer t (mkdir p m)) ≡ false
      → present (call H (mkdir p m) t).1 p ≡ true
  pub keeps :
      (t : Trace) (p q : Bytes) (m : ℕ)
      → present t q ≡ true
      → present (call H (mkdir p m) t).1 q ≡ true

-- The path itself, or a directory above it.
abbrev pub LeadsTo : Bytes → Bytes → Type 0
LeadsTo place path =
    (place ≡ path) ⊎ ((rest : Bytes) × (0 < length place) × (path ≡ place ++ b'/' ∷ rest))

-- The last call was a mkdir with that mode which failed, and not with EEXIST.
abbrev pub RefusedLast : ℕ → Trace → Type 0
RefusedLast mode t =
    (before : Trace) × (part : Bytes) × (r : Reply) × (t
      ≡ record { call = mkdir part mode; reply = r } ∷ before)
    × (is_refused r ≡ true)

module _ (H : Host) (present : Trace → Bytes → Bool) (fs : IsFileSystem H present) (mode : ℕ) where
  mkdir_walk_keeps :
      (before cs q : Bytes) (t : Trace)
      → present t q ≡ true
      → present (mkdir_walk H mode before cs t).1 q ≡ true
  unfolding mkdir_walk
  mkdir_walk_keeps before [] q t h = fs.keeps t before q mode h
  mkdir_walk_keeps before (c ∷ cs) q t h = elim (Bool-cases (c == b'/')) [
    | inl slash ↦ ground (
      arith,
      fs.keeps t before q mode h,
      mkdir_walk_keeps (before ++ c ∷ []) cs q (call H (mkdir before mode) t).1,
    )
    | inr other ↦ rw other (mkdir_walk_keeps (before ++ c ∷ []) cs q t h)
  ]

  -- A round at a slash that ends well goes on behind its mkdir.
  mkdir_walk_slash :
      (before : Bytes) (c : ℕ) (cs : Bytes) (t : Trace)
      → (c == b'/') ≡ true
      → (mkdir_walk H mode before (c ∷ cs) t).0 ≡ ok
      → (is_refused (H.answer t (mkdir before mode)) ≡ false)
        × (mkdir_walk H mode before (c ∷ cs) t
            ≡ mkdir_walk H mode (before ++ c ∷ []) cs (call H (mkdir before mode) t).1)
  unfolding mkdir_walk
  mkdir_walk_slash before c cs t slash h = (ground arith, ground arith)

  mkdir_walk_other :
      (before : Bytes) (c : ℕ) (cs : Bytes) (t : Trace)
      → (c == b'/') ≡ false
      → mkdir_walk H mode before (c ∷ cs) t ≡ mkdir_walk H mode (before ++ c ∷ []) cs t
  unfolding mkdir_walk
  mkdir_walk_other before c cs t other = rw other refl

  mkdir_walk_last :
      (before cs : Bytes) (t : Trace)
      → (mkdir_walk H mode before cs t).0 ≡ ok
      → present (mkdir_walk H mode before cs t).1 (before ++ cs) ≡ true
  mkdir_walk_last before [] t h =
      rw append-nil (unfold mkdir_walk in fs.makes t before mode (ground arith))
  mkdir_walk_last before (c ∷ cs) t h = elim (Bool-cases (c == b'/')) [
    | inl slash ↦
        let (made, e) = mkdir_walk_slash before c cs t slash h in
        rw (e, ← append_assoc before (c ∷ []) cs)
          (mkdir_walk_last (before ++ c ∷ []) cs (call H (mkdir before mode) t).1 (rw e at h))
    | inr other ↦
        let e = mkdir_walk_other before c cs t other in
        rw (e, ← append_assoc before (c ∷ []) cs)
          (mkdir_walk_last (before ++ c ∷ []) cs t (rw e at h))
  ]

  mkdir_walk_inner :
      (before cs inner rest : Bytes) (t : Trace)
      → (mkdir_walk H mode before cs t).0 ≡ ok
      → cs ≡ inner ++ b'/' ∷ rest
      → present (mkdir_walk H mode before cs t).1 (before ++ inner) ≡ true
  mkdir_walk_inner before [] [] rest t h s = cc
  mkdir_walk_inner before [] (d ∷ inner) rest t h s = cc
  mkdir_walk_inner before (c ∷ cs) [] rest t h s =
      let slash : (c == b'/') ≡ true = ground arith in
      let (made, e) = mkdir_walk_slash before c cs t slash h in
      rw (e, append-nil)
        (mkdir_walk_keeps (before ++ c ∷ []) cs before (call H (mkdir before mode) t).1
          (fs.makes t before mode made))
  mkdir_walk_inner before (c ∷ cs) (d ∷ inner) rest t h s =
      let same : c ≡ d = cc in
      let later : cs ≡ inner ++ b'/' ∷ rest = cc in
      elim (Bool-cases (c == b'/')) [
        | inl slash ↦
            let (made, e) = mkdir_walk_slash before c cs t slash h in
            rw (← same) (
              rw (e, ← append_assoc before (c ∷ []) inner)
                (mkdir_walk_inner (before ++ c ∷ []) cs inner rest (call H (mkdir before mode) t).1
                  (rw e at h) later))
        | inr other ↦
            let e = mkdir_walk_other before c cs t other in
            rw (← same) (
              rw (e, ← append_assoc before (c ∷ []) inner)
                (mkdir_walk_inner (before ++ c ∷ []) cs inner rest t (rw e at h) later))
      ]

  pub mkdir_from_last :
      (s : Bytes) (t : Trace)
      → (mkdir_from H mode s t).0 ≡ ok
      → present (mkdir_from H mode s t).1 s ≡ true
  unfolding mkdir_from
  mkdir_from_last [] t h = mkdir_walk_last [] [] t h
  mkdir_from_last (c ∷ cs) t h = mkdir_walk_last (c ∷ []) cs t h

  mkdir_from_above :
      (s above rest : Bytes) (t : Trace)
      → (mkdir_from H mode s t).0 ≡ ok
      → 0 < length above
      → s ≡ above ++ b'/' ∷ rest
      → present (mkdir_from H mode s t).1 above ≡ true
  unfolding mkdir_from
  mkdir_from_above s [] rest t h k e = absurd (omega arith)
  mkdir_from_above [] (d ∷ above) rest t h k e = cc
  mkdir_from_above (c ∷ cs) (d ∷ above) rest t h k e =
      let same : c ≡ d = cc in rw (← same) (mkdir_walk_inner (c ∷ []) cs above rest t h (cc))

  mkdir_walk-outcome :
      (before cs : Bytes) (t : Trace)
      → ((mkdir_walk H mode before cs t).0 ≡ ok)
        ⊎ (((mkdir_walk H mode before cs t).0 ≡ esyscall)
            × RefusedLast mode (mkdir_walk H mode before cs t).1)
  unfolding mkdir_walk
  mkdir_walk-outcome before [] t = elim (Bool-cases (is_refused (H.answer t (mkdir before mode)))) [
    | inl e ↦ inr (rw e refl, (t, before, H.answer t (mkdir before mode), refl, e))
    | inr e ↦ inl (rw e refl)
  ]
  mkdir_walk-outcome before (c ∷ cs) t = elim (Bool-cases (c == b'/')) [
    | inl slash ↦ elim (Bool-cases (is_refused (H.answer t (mkdir before mode)))) [
      | inl e ↦ rw (slash, e) (inr (refl, (t, before, H.answer t (mkdir before mode), refl, e)))
      | inr e ↦
          rw (slash, e) (mkdir_walk-outcome (before ++ c ∷ []) cs (call H (mkdir before mode) t).1)
    ]
    | inr other ↦ rw other (mkdir_walk-outcome (before ++ c ∷ []) cs t)
  ]

  mkdir_from-outcome :
      (s : Bytes) (t : Trace)
      → ((mkdir_from H mode s t).0 ≡ ok)
        ⊎ (((mkdir_from H mode s t).0 ≡ esyscall) × RefusedLast mode (mkdir_from H mode s t).1)
  unfolding mkdir_from
  mkdir_from-outcome [] t = mkdir_walk-outcome [] [] t
  mkdir_from-outcome (c ∷ cs) t = mkdir_walk-outcome (c ∷ []) cs t

  mkdir_from-present :
      (s place : Bytes) (t : Trace)
      → (mkdir_from H mode s t).0 ≡ ok
      → LeadsTo place s
      → present (mkdir_from H mode s t).1 place ≡ true
  mkdir_from-present s place t h (inl same) = rw same (mkdir_from_last s t h)
  mkdir_from-present s place t h (inr (rest, k, e)) = mkdir_from_above s place rest t h k e

  -- mkdir_recursive has two outcomes. With CR_OK the path (cut to the buffer, without one slash at
  -- its end) is there, be it of one part or of many, and so is every directory above it: each
  -- non-empty part of the path in front of a slash. Otherwise the last thing done was a mkdir that
  -- failed, and not because the directory was there, and the code is CR_ESYSCALL. The host's mkdir
  -- behaves as documented.
  pub mkdir_recursive-present :
      (path place : Bytes) (t : Trace)
      → LeadsTo place (strip_slash (snprintf max_path_len path))
      → let (code, t') = mkdir_recursive H path mode t in
        ((code ≡ ok) × (present t' place ≡ true)) ⊎ ((code ≡ esyscall) × RefusedLast mode t')
  unfolding mkdir_recursive
  mkdir_recursive-present path place t leads =
      let s = strip_slash (snprintf max_path_len path) in
      elim (mkdir_from-outcome s t) [
        | inl h ↦ inl (h, mkdir_from-present s place t h leads)
        | inr h ↦ inr h
      ]
