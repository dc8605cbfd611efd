-- ===== src/Cgroup/Control.antt =====
-- Freezing, thawing, killing and removing a control group.
use cruntm.Base.{◌≡◌, refl, ◌↔◌, true, false, Option, none, some, [], ◌∷◌, arith, if◌then◌else◌}
use cruntm.Text.{Bytes, codes}
use cruntm.Text.Laws.{equal, equal_refl}
use cruntm.Types.{is_ok}
use cruntm.Host.{Host, Trace, call, rmdir, is_failure, has_errno, enoent}
use cruntm.Host.Files.{Written, written}
use cruntm.Cgroup.{
  control_path, write_control, cgroup_freeze, cgroup_unfreeze, cgroup_kill_all, cgroup_destroy,
}
use cruntm.Cgroup.Limits.{cgroup_write_file-written}

-- The text that was last written to a file in full.
unfoldable pub last_text : Bytes → Written → Option Bytes
last_text p [] = none
last_text p ((q, v) ∷ rest) = if equal q p then some v else last_text p rest

-- The kernel's view of a group: frozen if the last text in cgroup.freeze is "1".
abbrev pub freezer : Bytes → Trace → Option Bytes
freezer p t = last_text (control_path p (codes "cgroup.freeze")) (written t)

module _ (H : Host) where
  write_control-written :
      (p name v : Bytes) (t : Trace)
      → let (code, t') = write_control H p name v t in
        written t' ≡ (if is_ok code then (control_path p name, v) ∷ written t else written t)
  unfolding write_control
  write_control-written p name v t =
      ground (arith, cgroup_write_file-written H (control_path p name) v t)

  write_control-last_text :
      (p name v : Bytes) (t : Trace)
      → let (code, t') = write_control H p name v t in
        last_text (control_path p name) (written t')
        ≡ (if is_ok code then some v else last_text (control_path p name) (written t))
  unfolding last_text
  write_control-last_text p name v t =
      ground (arith, write_control-written p name v t, equal_refl (control_path p name))

  -- cgroup_freeze freezes the group and cgroup_unfreeze thaws it exactly when they return CR_OK. On
  -- an error the group stays as it was.
  freeze_and_unfreeze :
      (p : Bytes) (t : Trace)
      → (let (code, t') = cgroup_freeze H p t in
          freezer p t' ≡ (if is_ok code then some (codes "1") else freezer p t))
        × (let (code, t') = cgroup_unfreeze H p t in
            freezer p t' ≡ (if is_ok code then some (codes "0") else freezer p t))
  unfolding cgroup_freeze cgroup_unfreeze
  freeze_and_unfreeze p t = (write_control-last_text p _ _ t, write_control-last_text p _ _ t)

  -- cgroup_destroy asks the group to be killed, and then, whether or not that was taken, makes the
  -- removal of its directory the last call. It fails exactly when the removal fails with another
  -- error than ENOENT.
  pub cgroup_destroy_lem :
      (p : Bytes) (t : Trace)
      → let (code, t') = cgroup_destroy H p t in
        (before : Trace) × (t' ≡ (call H (rmdir p) before).1)
        × (written before ≡ (
            if is_ok (cgroup_kill_all H p t).0
            then (control_path p (codes "cgroup.kill"), codes "1") ∷ written t
            else written t))
        × ((is_ok code ≡ false) ↔ (
            (is_failure (H.answer before (rmdir p)) ≡ true)
            × (has_errno enoent (H.answer before (rmdir p)) ≡ false)))
  unfolding cgroup_destroy cgroup_kill_all written
  cgroup_destroy_lem p t = (_, refl, write_control-written p _ _ t, ground arith)
