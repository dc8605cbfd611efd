-- ===== src/Descriptors.antt =====
-- src/cgroup/cgroup.c and src/namespace/namespace.c: the descriptors that they open.
use cruntm.Base.{ℕ}
use cruntm.Base.Int.{ℤ}
use cruntm.Text.{Bytes}
use cruntm.Types.{ResourceLimits}
use cruntm.Host.{Host}
use cruntm.Host.Keeps.{KeepsFiles}
use cruntm.Cgroup.{
  cgroup_create, cgroup_apply_limits, cgroup_add_process, cgroup_get_stats, cgroup_freeze,
  cgroup_unfreeze, cgroup_kill_all, cgroup_destroy,
}
use cruntm.Cgroup.Descriptors.{cgroup-KeepsFiles}
use cruntm.Namespace.{namespace_setup_user, namespace_join, namespace_persist}
use cruntm.Namespace.Users.{namespace-KeepsFiles}

-- Every operation of the cgroup component, the mapping of the user, and joining and keeping a
-- namespace leave the open descriptors as they were, whatever the host answers: on success, on a
-- failed open and on a short write.
pub descriptors-KeepsFiles :
    (H : Host) (path name : Bytes) (pid : ℤ) (limits : ResourceLimits) (size uid gid ns_type : ℕ)
    (buffer : Bytes)
    → (KeepsFiles (cgroup_create H path size buffer)
        × KeepsFiles (cgroup_apply_limits H path limits)
        × KeepsFiles (cgroup_add_process H path pid)
        × KeepsFiles (cgroup_get_stats H path size)
        × KeepsFiles (cgroup_freeze H path)
        × KeepsFiles (cgroup_unfreeze H path)
        × KeepsFiles (cgroup_kill_all H path)
        × KeepsFiles (cgroup_destroy H path))
      × (KeepsFiles (namespace_setup_user H uid gid)
          × KeepsFiles (namespace_join H path ns_type)
          × KeepsFiles (namespace_persist H pid name path))
descriptors-KeepsFiles H path name pid limits size uid gid ns_type buffer = (
  cgroup-KeepsFiles H path pid size buffer limits,
  namespace-KeepsFiles H uid gid pid ns_type name path,
)
