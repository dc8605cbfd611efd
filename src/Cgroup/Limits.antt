-- ===== src/Cgroup/Limits.antt =====
-- What cgroup_apply_limits leaves in the files of the group.
use cruntm.Base.{
  ◌≡◌, refl, ◌∙◌, Bool, true, false, ◌&&◌, [], ◌∷◌, ◌++◌, append_assoc, arith, length-append,
  if◌then◌else◌,
}
use cruntm.Base.Int.{ℤ, pos, ltb_ℤ, IsInt64}
use cruntm.Text.{Bytes, codes, snprintf, print_int}
use cruntm.Text.Decimal.{length-print_int}
use cruntm.Text.Laws.{snprintf-eq_self}
use cruntm.Types.{ResourceLimits, ok, is_ok}
use cruntm.Host.{Host, Trace, create_truncate}
use cruntm.Host.Files.{Written, written, IsWritable}
use cruntm.Cgroup.{control_path, cgroup_write_file, apply_limit, cpu_weight, cgroup_apply_limits}
use cruntm.Cgroup.Weight.{cpu_weight-IsInt64}

-- Every field is an `int64_t`.
pub record HasInt64Fields (l : ResourceLimits) : Type 0 where
  pub memory_limit : IsInt64 l.memory_limit
  pub memory_swap : IsInt64 l.memory_swap
  pub cpu_quota : IsInt64 l.cpu_quota
  pub cpu_period : IsInt64 l.cpu_period
  pub pids_limit : IsInt64 l.pids_limit
  pub blkio_weight : IsInt64 l.blkio_weight

-- The file and its text, if the limit is set.
abbrev setting : Bool → Bytes → Bytes → Bytes → Written
setting guard p name text = if guard then (control_path p name, text) ∷ [] else []

abbrev is_set : ℤ → Bool
is_set = ltb_ℤ (pos 0)

-- The settings of cgroup v2 that express the limits, the last to be made first. A quota without a
-- period, or a limit that is not positive, gives none.
abbrev pub settings : Bytes → ResourceLimits → Written
settings p l =
    setting (is_set l.blkio_weight) p (codes "io.weight")
      (codes "default " ++ print_int l.blkio_weight)
    ++ (setting (is_set l.pids_limit) p (codes "pids.max") (print_int l.pids_limit)
        ++ (setting (is_set l.cpu_quota && is_set l.cpu_period) p (codes "cpu.max")
              (print_int l.cpu_quota ++ b' ' ∷ print_int l.cpu_period)
            ++ (setting (is_set l.cpu_shares) p (codes "cpu.weight")
                  (print_int (cpu_weight l.cpu_shares))
                ++ (setting (is_set l.memory_swap) p (codes "memory.swap.max")
                      (print_int l.memory_swap)
                    ++ setting (is_set l.memory_limit) p (codes "memory.max")
                        (print_int l.memory_limit)))))

snprintf-print_int : (a : ℤ) → IsInt64 a → snprintf 256 (print_int a) ≡ print_int a
snprintf-print_int a h = snprintf-eq_self 256 (print_int a) (omega (arith, length-print_int a h))

snprintf_pair :
    (a b : ℤ)
    → IsInt64 a
    → IsInt64 b
    → snprintf 256 (print_int a ++ b' ' ∷ print_int b) ≡ print_int a ++ b' ' ∷ print_int b
snprintf_pair a b h k = snprintf-eq_self 256 _ (
    omega (
      arith,
      length-append (print_int a) (b' ' ∷ print_int b),
      length-print_int a h,
      length-print_int b k,
    ))

snprintf_default :
    (a : ℤ)
    → IsInt64 a
    → snprintf 256 (codes "default " ++ print_int a) ≡ codes "default " ++ print_int a
unfolding codes
snprintf_default a h = snprintf-eq_self 256 _ (omega (arith, length-print_int a h))

module _ (H : Host) where
  -- The code tells whether the text got into the file.
  pub cgroup_write_file-written :
      (p v : Bytes) (t : Trace)
      → let (code, t') = cgroup_write_file H p v t in
        written t' ≡ (if is_ok code then (p, v) ∷ written t else written t)
  unfolding cgroup_write_file written
  cgroup_write_file-written p v t = ground arith

  pub cgroup_write_file_writable :
      IsWritable H → (p v : Bytes) (t : Trace) → (cgroup_write_file H p v t).0 ≡ ok
  unfolding cgroup_write_file
  cgroup_write_file_writable w p v t =
      let (fd, opens) = w.opens t p create_truncate 0o644 in
      rw opens (rw (w.writes _ fd v) (ground arith))

  apply_limit-written :
      IsWritable H
      → (g : Bool) (p name v : Bytes) (t : Trace)
      → written (apply_limit H g p name v t).1 ≡ setting g p name (snprintf 256 v) ++ written t
  unfolding apply_limit
  apply_limit-written w true p name v t =
      cgroup_write_file-written _ _ t
      ∙ rw (cgroup_write_file_writable w (control_path p name) (snprintf 256 v) t) refl
  apply_limit-written w false p name v t = refl

  -- On a host that takes all writes, each limit that is set is written to its file in full, in the
  -- order of the code, and nothing else is written. The code is CR_OK. The fields are `int64_t`.
  pub cgroup_apply_limits-settings :
      IsWritable H
      → (p : Bytes) (l : ResourceLimits) (t : Trace) → HasInt64Fields l
      → ((cgroup_apply_limits H p l t).0 ≡ ok)
        × (written (cgroup_apply_limits H p l t).1 ≡ settings p l ++ written t)
  unfolding cgroup_apply_limits
  cgroup_apply_limits-settings w p l t h = (
    refl,
    simp (
      apply_limit-written w,
      append_assoc,
      snprintf-print_int l.memory_limit h.memory_limit,
      snprintf-print_int l.memory_swap h.memory_swap,
      snprintf-print_int (cpu_weight l.cpu_shares) (cpu_weight-IsInt64 l.cpu_shares),
      snprintf_pair l.cpu_quota l.cpu_period h.cpu_quota h.cpu_period,
      snprintf-print_int l.pids_limit h.pids_limit,
      snprintf_default l.blkio_weight h.blkio_weight,
    ),
  )
