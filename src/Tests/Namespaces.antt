-- ===== src/Tests/Namespaces.antt =====
-- The theorems on namespaces at concrete inputs.
use cruntm.Base.{
  ℕ, ◌%◌, ◌^◌, ◌<◌, ◌≡◌, ◌⊎◌, Bool, true, false, List, [], ◌∷◌, ◌++◌, arith, backwards,
  if◌then◌else◌,
}
use cruntm.Base.Int.{pos}
use cruntm.Text.{codes}
use cruntm.Types.{NamespaceConfig, ContainerConfig, ok, esyscall, is_ok}
use cruntm.Host.{Trace, Call, open_file, create_exclusive, unlink, Reply, failed, is_failure}
use cruntm.Host.Files.{written}
use cruntm.Host.Mounts.{mounted, FailedLast}
use cruntm.Namespace.{
  namespace_get_clone_flags, namespace_setup_mounts, namespace_pivot_root, namespace_setup_user,
  namespace_persist,
}
use cruntm.Namespace.Flags.{requested, requested-namespace_get_clone_flags}
use cruntm.Host.Plans.{Execution, logged}
use cruntm.Namespace.Attempts.{mount_plan, namespace_setup_mounts-Execution}
use cruntm.Namespace.Pivot.{pivot_plan, namespace_pivot_root-calls}
use cruntm.Namespace.Users.{namespace_setup_user-written, printed_id}
use cruntm.Namespace.Persist.{created, kept_at, namespace_persist-created}
use cruntm.Main.{default_settings, bind_volume}
use cruntm.Tests.Hosts.{accepting, accepting-IsWritable}

abbrev some_namespaces : NamespaceConfig
some_namespaces = record {
  pid = true;
  net = false;
  mnt = true;
  uts = false;
  ipc = true;
  user = false;
  cgroup = true;
}

-- The default container, read-only, with one volume.
abbrev box : ContainerConfig
box = record ((default_settings (codes "a1") 0 0).config) {
  rootfs = codes "/srv/root";
  mounts = bind_volume (codes "/data") (codes "/mnt") ∷ [];
  readonly_rootfs = true;
}

requested-namespace_get_clone_flags_example :
    (requested (namespace_get_clone_flags some_namespaces) ≡ some_namespaces)
    × (namespace_get_clone_flags some_namespaces < 2 ^ 31)
    × (namespace_get_clone_flags some_namespaces % 256 ≡ 0)
requested-namespace_get_clone_flags_example = requested-namespace_get_clone_flags some_namespaces

namespace_setup_mounts-Execution_example :
    let (code, t') = namespace_setup_mounts accepting box [] in
    (log : List (Call × Bool)) × (logged t' ≡ backwards log ++ logged [])
    × Execution (mount_plan box) log (is_ok code)
namespace_setup_mounts-Execution_example = namespace_setup_mounts-Execution accepting box []

namespace_pivot_root-calls_example :
    let (code, t') = namespace_pivot_root accepting (codes "/srv/root") [] in
    (log : List (Call × Bool)) × (logged t' ≡ backwards log ++ logged [])
    × Execution (pivot_plan (codes "/srv/root")) log (is_ok code)
namespace_pivot_root-calls_example = namespace_pivot_root-calls accepting (codes "/srv/root") []

namespace_setup_user-written_example :
    ((namespace_setup_user accepting 4294967294 100 []).0 ≡ ok)
    × (written (namespace_setup_user accepting 4294967294 100 []).1
        ≡ (codes "/proc/self/gid_map", codes "0 " ++ (printed_id 100 ++ codes " 1"))
          ∷ (codes "/proc/self/uid_map", codes "0 " ++ (printed_id 4294967294 ++ codes " 1"))
          ∷ (codes "/proc/self/setgroups", codes "deny")
          ∷ written [])
namespace_setup_user-written_example =
    namespace_setup_user-written accepting accepting-IsWritable 4294967294 100 [] (omega arith)
      (omega arith)

namespace_persist-created_example :
    let path = codes "/run/netns/a" in
    let (code, t') = namespace_persist accepting (pos 42) (codes "net") path [] in
    ((code ≡ ok)
      × (created t' ≡ path ∷ created [])
      × (mounted t' ≡ kept_at (pos 42) (codes "net") path ∷ mounted []))
    ⊎ ((code ≡ esyscall)
        × FailedLast (open_file path create_exclusive 0o444) t'
        × (created t' ≡ created [])
        × (mounted t' ≡ mounted []))
    ⊎ ((code ≡ esyscall)
        × ((before : Trace) × (e : ℕ) × (r : Reply) × (t'
              ≡ record { call = unlink path; reply = r }
                ∷ record { call = kept_at (pos 42) (codes "net") path; reply = failed e }
                ∷ before)
            × (created t' ≡ (if is_failure r then path ∷ created [] else created [])))
        × (mounted t' ≡ mounted []))
namespace_persist-created_example =
    namespace_persist-created accepting (pos 42) (codes "net") (codes "/run/netns/a") []
