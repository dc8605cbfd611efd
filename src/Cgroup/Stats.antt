-- ===== src/Cgroup/Stats.antt =====
-- The report of cgroup_get_stats and the buffer of its caller.
use cruntm.Base.{
  ℕ, ◌+◌, ◌-◌, ◌^◌, ◌≤◌, ◌<◌, ◌≡◌, refl, ap, ◌∙◌, inl, inr, [], ◌∷◌, ◌++◌, arith, length,
  length-append, length-take-le, take-eq_self, All, Bool-cases,
}
use mathlib.Core.Path.{subst}
use cruntm.Text.{Bytes, codes}
use cruntm.Types.{ok, is_ok}
use cruntm.Host.{Host, Trace, OpenFlags, open_file, read_only, read, value, result}
use cruntm.Buffer.{Report, empty, append, InBounds, full_text, Fits, append-Fits, Fits-weaken}
use cruntm.Cgroup.{control_path, cgroup_read_file, report_file, cgroup_get_stats}

-- A read delivers no more than it was asked for.
abbrev pub ReadsAtMost : Host → Type 0
ReadsAtMost H = (t : Trace) (fd n k : ℕ) → H.answer t (read fd n) ≡ value k → k ≤ n

module _ (H : Host) (bounded : ReadsAtMost H) where
  length-cgroup_read_file :
      (p : Bytes) (n : ℕ) (t : Trace) → length (cgroup_read_file H p n [] t).0.1 ≤ n - 1
  unfolding cgroup_read_file
  length-cgroup_read_file p n t =
      let opened = H.answer t (open_file p read_only 0) in
      let u : Trace = record { call = open_file p read_only 0; reply = opened } ∷ t in
      let reading = read (result opened) (n - 1) in
      let k = result (H.answer u reading) in
      ground (arith, length-take-le k (H.input u reading), bounded u (result opened) (n - 1) k)

  -- A section takes at most 255 characters of a file, and the format around them.
  report_file-Fits :
      (n limit limit' : ℕ) (p name prefix suffix : Bytes) (r : Report) (t : Trace)
      → Fits n limit r
      → limit + length prefix + 255 + length suffix ≤ limit'
      → limit' < n
      → n < 2 ^ 64
      → Fits n limit' (report_file H n p name prefix suffix r t).0
  unfolding report_file
  report_file-Fits n limit limit' p name prefix suffix r t h k b c =
      let got = cgroup_read_file H (control_path p name) 256 [] t in
      let text = prefix ++ (got.0.1 ++ suffix) in
      let size : length text ≤ length prefix + 255 + length suffix = omega (
        arith,
        length-append prefix (got.0.1 ++ suffix),
        length-append got.0.1 suffix,
        length-cgroup_read_file (control_path p name) 256 t,
      ) in
      elim (Bool-cases (is_ok got.0.0)) [
        | inl e ↦ rw e (append-Fits n limit limit' text r h (omega arith) b c)
        | inr e ↦ rw e (Fits-weaken limit' h (omega arith))
      ]

  -- On a host whose reads deliver no more than they are asked for, and with a buffer of more than 1068
  -- bytes (and less than 2 ^ 64), every write of the report lies inside the buffer, and the offset is
  -- the length of the whole report, which is no more than 1068.
  pub cgroup_get_stats-Fits :
      (p : Bytes) (n : ℕ) (t : Trace)
      → 1068 < n
      → n < 2 ^ 64
      → Fits n 1068 (cgroup_get_stats H p n t).0.1
  unfolding cgroup_get_stats codes full_text
  cgroup_get_stats-Fits p n t b c =
      let h₁ =
        report_file-Fits n 0 270 p (codes "memory.current") (codes "Memory: ") (codes " bytes\n")
          empty t (omega arith) (omega arith) (omega arith) c in
      let h₂ =
        report_file-Fits n 270 540 p (codes "memory.max") (codes "Memory Limit: ") (codes "\n") _ _
          h₁ (omega arith) (omega arith) c in
      let h₃ =
        report_file-Fits n 540 806 p (codes "cpu.stat") (codes "CPU Stats: ") [] _ _ h₂
          (omega arith) (omega arith) c in
      report_file-Fits n 806 1068 p (codes "pids.current") (codes "PIDs: ") (codes "\n") _ _ h₃
        (omega arith) b c

overrun :
    (n : ℕ) (x₁ x₂ x₃ x₄ : Bytes)
    → n < length x₁
    → length x₁ < 1000
    → length x₂ < 1000
    → ¬ All (InBounds n) (append n x₄ (append n x₃ (append n x₂ (append n x₁ empty)))).fills
unfolding append
overrun n x₁ x₂ x₃ x₄ a b c h = let second = h.1.0 in ground arith

-- Every open succeeds, and every read that asks for so many delivers `k` bytes.
pub record ReadsExactly (H : Host) (k : ℕ) : Type 0 where
  pub opens :
      (t : Trace) (p : Bytes) (f : OpenFlags) (m : ℕ)
      → (fd : ℕ) × (H.answer t (open_file p f m) ≡ value fd)
  pub reads : (t : Trace) (fd n : ℕ) → k ≤ n → H.answer t (read fd n) ≡ value k
  pub delivers : (t : Trace) (fd n : ℕ) → k ≤ n → length (H.input t (read fd n)) ≡ k

module _ (H : Host) (k : ℕ) (full : ReadsExactly H k) (small : k ≤ 255) where
  cgroup_read_file_full :
      (p : Bytes) (t : Trace)
      → ((cgroup_read_file H p 256 [] t).0.0 ≡ ok)
        × (length (cgroup_read_file H p 256 [] t).0.1 ≡ k)
  unfolding cgroup_read_file
  cgroup_read_file_full p t =
      let (fd, opened) = full.opens t p read_only 0 in
      let u : Trace = record { call = open_file p read_only 0; reply = value fd } ∷ t in
      let got = full.reads u fd 255 small in
      let size = full.delivers u fd 255 small in
      rw opened (rw got (refl, ap length (take-eq_self k _ (omega (arith, size))) ∙ size))

  report_file_full :
      (n : ℕ) (p name prefix suffix : Bytes) (r : Report) (t : Trace)
      → (text : Bytes) × ((report_file H n p name prefix suffix r t).0 ≡ append n text r)
        × (length text ≡ length prefix + k + length suffix)
  unfolding report_file
  report_file_full n p name prefix suffix r t =
      let (good, size) = cgroup_read_file_full (control_path p name) t in
      let got = (cgroup_read_file H (control_path p name) 256 [] t).0.1 in
      (
        prefix ++ (got ++ suffix),
        rw good,
        omega (arith, length-append prefix (got ++ suffix), length-append got suffix, size),
      )

  -- Where every file is there and every read delivers k bytes, k no more than 255, a buffer that is
  -- smaller than the first line of the report is overrun: not every write lies inside the buffer.
  pub cgroup_get_stats_overrun :
      (p : Bytes) (n : ℕ) (t : Trace)
      → n < 15 + k
      → ¬ All (InBounds n) (cgroup_get_stats H p n t).0.1.fills
  unfolding cgroup_get_stats codes
  cgroup_get_stats_overrun p n t short h =
      let (x₁, e₁, l₁) =
        report_file_full n p (codes "memory.current") (codes "Memory: ") (codes " bytes\n") empty
          t in
      let (x₂, e₂, l₂) =
        report_file_full n p (codes "memory.max") (codes "Memory Limit: ") (codes "\n") _ _ in
      let (x₃, e₃, l₃) = report_file_full n p (codes "cpu.stat") (codes "CPU Stats: ") [] _ _ in
      let (x₄, e₄, l₄) =
        report_file_full n p (codes "pids.current") (codes "PIDs: ") (codes "\n") _ _ in
      let e = e₄ ∙ ap (append n x₄) (e₃ ∙ ap (append n x₃) (e₂ ∙ ap (append n x₂) e₁)) in
      overrun n x₁ x₂ x₃ x₄ (omega (arith, l₁)) (omega (arith, l₁)) (omega (arith, l₂))
        (subst (λ r. All (InBounds n) r.fills) e h)
