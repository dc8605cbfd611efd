-- ===== src/Tests/Cgroups.antt =====
-- The theorems on cgroups at concrete inputs.
use cruntm.Base.{
  ℕ, ◌*◌, ◌/◌, ◌^◌, ◌<◌, ◌≡◌, ◌↔◌, true, false, [], ◌∷◌, ◌++◌, arith, All, if◌then◌else◌,
}
use Prim.Native.Nat.{min, max}
use cruntm.Base.Int.{pos, negsuc, IsInt64}
use cruntm.Text.{Bytes, codes}
use cruntm.Types.{ResourceLimits, ok, is_ok}
use cruntm.Host.{Trace, call, rmdir, is_failure, has_errno, enoent}
use cruntm.Host.Files.{written}
use cruntm.Host.Keeps.{KeepsFiles}
use cruntm.Buffer.{Fits, InBounds}
use cruntm.Cgroup.{
  control_path, cpu_weight, cgroup_create, cgroup_apply_limits, cgroup_add_process,
  cgroup_get_stats, cgroup_freeze, cgroup_unfreeze, cgroup_kill_all, cgroup_destroy,
}
use cruntm.Cgroup.Weight.{cpu_weight-eq}
use cruntm.Cgroup.Limits.{HasInt64Fields, settings, cgroup_apply_limits-settings}
use cruntm.Namespace.{namespace_setup_user, namespace_join, namespace_persist}
use cruntm.Descriptors.{descriptors-KeepsFiles}
use cruntm.Cgroup.Stats.{cgroup_get_stats-Fits, cgroup_get_stats_overrun}
use cruntm.Host.{stat, mkdir}
use cruntm.Host.Mounts.{calls}
use cruntm.Storage.{is_refused}
use cruntm.Types.{error, esyscall}
use cruntm.Tests.Hosts.{present, accepting-IsFileSystem}
use cruntm.Base.{◌⊎◌, false}
use cruntm.Cgroup.Create.{
  controllers_file, with_parent, group_directory, subtree_file, Overwrites, cgroup_create_lem,
}
use cruntm.Cgroup.Control.{cgroup_destroy_lem}
use cruntm.Tests.Hosts.{
  accepting, accepting-IsWritable, accepting-ReadsAtMost, accepting-ReadsExactly,
}

abbrev group : Bytes
group = codes "/sys/fs/cgroup/cruntime/a1"

-- 512 MiB, half of a processor, and no more than 64 processes.
abbrev half : ResourceLimits
half = record {
  memory_limit = pos 536_870_912;
  memory_swap = pos 0;
  cpu_shares = pos 1024;
  cpu_quota = pos 50_000;
  cpu_period = pos 100_000;
  pids_limit = pos 64;
  blkio_weight = negsuc 0;
}

small : (n : ℕ) → n < 2 ^ 63 → IsInt64 (pos n)
small n h = record { upper = h; lower = omega arith }

half-HasInt64Fields : HasInt64Fields half
half-HasInt64Fields = record {
  memory_limit = small _ (omega arith);
  memory_swap = small _ (omega arith);
  cpu_quota = small _ (omega arith);
  cpu_period = small _ (omega arith);
  pids_limit = small _ (omega arith);
  blkio_weight = record { upper = omega arith; lower = omega arith };
}

cpu_weight-eq_example : cpu_weight (pos 1024) ≡ pos (min 10000 (max 1 (1024 * 10000 / 262144)))
cpu_weight-eq_example = cpu_weight-eq 1024 (omega arith)

cgroup_apply_limits-settings_example :
    ((cgroup_apply_limits accepting group half []).0 ≡ ok)
    × (written (cgroup_apply_limits accepting group half []).1 ≡ settings group half ++ written [])
cgroup_apply_limits-settings_example =
    cgroup_apply_limits-settings accepting accepting-IsWritable group half [] half-HasInt64Fields

cgroup_get_stats-Fits_example : Fits 4096 1068 (cgroup_get_stats accepting group 4096 []).0.1
cgroup_get_stats-Fits_example =
    cgroup_get_stats-Fits accepting accepting-ReadsAtMost group 4096 [] (omega arith) (omega arith)

cgroup_get_stats_overrun_example :
    ¬ All (InBounds 16) (cgroup_get_stats accepting group 16 []).0.1.fills
cgroup_get_stats_overrun_example =
    cgroup_get_stats_overrun accepting 20 accepting-ReadsExactly (omega arith) group 16 []
      (omega arith)

cgroup_destroy_lem_example :
    let (code, t') = cgroup_destroy accepting group [] in
    (before : Trace) × (t' ≡ (call accepting (rmdir group) before).1)
    × (written before ≡ (
        if is_ok (cgroup_kill_all accepting group []).0
        then (control_path group (codes "cgroup.kill"), codes "1") ∷ written []
        else written []))
    × ((is_ok code ≡ false) ↔ (
        (is_failure (accepting.answer before (rmdir group)) ≡ true)
        × (has_errno enoent (accepting.answer before (rmdir group)) ≡ false)))
cgroup_destroy_lem_example = cgroup_destroy_lem accepting group []

descriptors-KeepsFiles_example :
    (KeepsFiles (cgroup_create accepting group 4096 [])
      × KeepsFiles (cgroup_apply_limits accepting group half)
      × KeepsFiles (cgroup_add_process accepting group (pos 42))
      × KeepsFiles (cgroup_get_stats accepting group 4096)
      × KeepsFiles (cgroup_freeze accepting group)
      × KeepsFiles (cgroup_unfreeze accepting group)
      × KeepsFiles (cgroup_kill_all accepting group)
      × KeepsFiles (cgroup_destroy accepting group))
    × (KeepsFiles (namespace_setup_user accepting 1000 1000)
        × KeepsFiles (namespace_join accepting group 0x4000_0000)
        × KeepsFiles (namespace_persist accepting (pos 42) (codes "net") group))
descriptors-KeepsFiles_example =
    descriptors-KeepsFiles accepting group (codes "net") (pos 42) half 4096 1000 1000 0x4000_0000 []

cgroup_create_lem_example :
    let ((code, path), t') = cgroup_create accepting (codes "a1") 4096 [] [] in
    let directory = group_directory 4096 (codes "a1") in
    let (made, u) = call accepting (mkdir directory 0o755) (with_parent accepting []) in
    let missing = is_failure (accepting.answer [] (stat controllers_file)) in
    ((missing ≡ true)
      × (code ≡ error)
      × (path ≡ [])
      × (calls t' ≡ stat controllers_file ∷ calls []))
    ⊎ ((missing ≡ false)
        × (is_refused made ≡ true)
        × (code ≡ esyscall)
        × (path ≡ directory)
        × (t' ≡ u))
    ⊎ ((missing ≡ false)
        × (is_refused made ≡ false)
        × (code ≡ ok)
        × (path ≡ directory)
        × (present u directory ≡ true)
        × Overwrites subtree_file (codes "+cpu +memory +io +pids") u t')
cgroup_create_lem_example =
    cgroup_create_lem accepting present accepting-IsFileSystem (codes "a1") [] 4096 []
