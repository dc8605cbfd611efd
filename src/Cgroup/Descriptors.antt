-- ===== src/Cgroup/Descriptors.antt =====
-- src/cgroup/cgroup.c closes every descriptor that it opens, on every path.
use cruntm.Base.{ℕ, refl, Bool, true, false, arith}
use cruntm.Base.Int.{ℤ}
use cruntm.Text.{Bytes}
use cruntm.Types.{ResourceLimits}
use cruntm.Host.{Host}
use cruntm.Host.Files.{open_files}
use cruntm.Host.Keeps.{KeepsFiles}
use cruntm.Cgroup.{
  cgroup_write_file, cgroup_read_file, is_cgroup_v2, cgroup_create, apply_limit,
  cgroup_apply_limits, write_control, cgroup_add_process, report_file, cgroup_get_stats,
  cgroup_freeze, cgroup_unfreeze, cgroup_kill_all, cgroup_destroy,
}
use cruntm.Buffer.{Report}

module _ (H : Host) where
  pub cgroup_write_file-KeepsFiles : (p v : Bytes) → KeepsFiles (cgroup_write_file H p v)
  unfolding cgroup_write_file open_files
  cgroup_write_file-KeepsFiles p v t = ground arith

  pub cgroup_read_file-KeepsFiles :
      (p : Bytes) (n : ℕ) (b : Bytes) → KeepsFiles (cgroup_read_file H p n b)
  unfolding cgroup_read_file open_files
  cgroup_read_file-KeepsFiles p n b t = ground arith

  apply_limit-KeepsFiles : (g : Bool) (p n v : Bytes) → KeepsFiles (apply_limit H g p n v)
  unfolding apply_limit
  apply_limit-KeepsFiles true p n v t = simp cgroup_write_file-KeepsFiles
  apply_limit-KeepsFiles false p n v t = refl

  cgroup_apply_limits-KeepsFiles :
      (p : Bytes) (l : ResourceLimits) → KeepsFiles (cgroup_apply_limits H p l)
  unfolding cgroup_apply_limits
  cgroup_apply_limits-KeepsFiles p l t = simp apply_limit-KeepsFiles

  write_control-KeepsFiles : (p n v : Bytes) → KeepsFiles (write_control H p n v)
  unfolding write_control
  write_control-KeepsFiles p n v t = simp cgroup_write_file-KeepsFiles

  report_file-KeepsFiles :
      (n : ℕ) (p f a b : Bytes) (r : Report) → KeepsFiles (report_file H n p f a b r)
  unfolding report_file
  report_file-KeepsFiles n p f a b r t = simp cgroup_read_file-KeepsFiles

  cgroup_get_stats-KeepsFiles : (p : Bytes) (n : ℕ) → KeepsFiles (cgroup_get_stats H p n)
  unfolding cgroup_get_stats
  cgroup_get_stats-KeepsFiles p n t = simp report_file-KeepsFiles

  cgroup_create-KeepsFiles : (id : Bytes) (n : ℕ) (b : Bytes) → KeepsFiles (cgroup_create H id n b)
  unfolding cgroup_create is_cgroup_v2 open_files
  cgroup_create-KeepsFiles id n b t = grind (arith, cgroup_write_file-KeepsFiles)

  cgroup_destroy-KeepsFiles : (p : Bytes) → KeepsFiles (cgroup_destroy H p)
  unfolding cgroup_destroy open_files cgroup_kill_all
  cgroup_destroy-KeepsFiles p t = simp write_control-KeepsFiles

  pub cgroup-KeepsFiles :
      (p : Bytes) (pid : ℤ) (n : ℕ) (b : Bytes) (l : ResourceLimits)
      → KeepsFiles (cgroup_create H p n b)
        × KeepsFiles (cgroup_apply_limits H p l)
        × KeepsFiles (cgroup_add_process H p pid)
        × KeepsFiles (cgroup_get_stats H p n)
        × KeepsFiles (cgroup_freeze H p)
        × KeepsFiles (cgroup_unfreeze H p)
        × KeepsFiles (cgroup_kill_all H p)
        × KeepsFiles (cgroup_destroy H p)
  unfolding cgroup_add_process cgroup_freeze cgroup_unfreeze cgroup_kill_all
  cgroup-KeepsFiles p pid n b l = (
    cgroup_create-KeepsFiles p n b,
    cgroup_apply_limits-KeepsFiles p l,
    write_control-KeepsFiles _ _ _,
    cgroup_get_stats-KeepsFiles p n,
    write_control-KeepsFiles _ _ _,
    write_control-KeepsFiles _ _ _,
    write_control-KeepsFiles _ _ _,
    cgroup_destroy-KeepsFiles p,
  )
