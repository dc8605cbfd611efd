-- ===== src/Namespace.antt =====
-- src/namespace/namespace.c: the flags for clone, the mounts and the root of a container, its host
-- name, its user mapping, and namespaces that are joined or kept on a path. The messages to the log
-- are left out. The flag values are those of the Linux headers.
pub mod Flags
pub mod Mounts
pub mod Attempts
pub mod Pivot
pub mod Users
pub mod Persist
use Prim.Native.Nat.{bit_or}
use cruntm.Base.{
  ℕ, zero, suc, ◌+◌, ◌-◌, ◌*◌, ◌/◌, ◌%◌, ◌^◌, ◌≤◌, ◌<◌, ◌≡◌, refl, sym, ap, ◌∙◌, ◌≢◌, ◌⊎◌, ◌↔◌, inl,
  inr, Bool, true, false, not, ◌&&◌, ◌||◌, Option, none, some, List, [], ◌∷◌, ◌++◌, append-nil,
  append_assoc, arith, take, length, length-append, length-take-le, take-eq_self, All, backwards,
  ltb, leb, ◌==◌, ltb→lt, leb→le, ==_iff, Bool-cases, if◌then◌else◌,
}
use cruntm.Base.Int.{ℤ}
use cruntm.Text.{Bytes, codes, snprintf, print_int, to_int32, strrchr}
use cruntm.Types.{max_path_len, NamespaceConfig, MountPoint, ContainerConfig, Code, ok, esyscall}
use cruntm.Host.{
  Host, M, pure, ◌>>=◌, ◌>>◌, call, open_file, read_only, write_only, create_exclusive, write,
  close, mkdir, rmdir, unlink, mount, umount2, pivot_root, chdir, sethostname, setns, Reply,
  is_failure, result,
}

abbrev pub clone_newns : ℕ
clone_newns = 0x0002_0000

abbrev pub clone_newcgroup : ℕ
clone_newcgroup = 0x0200_0000

abbrev pub clone_newuts : ℕ
clone_newuts = 0x0400_0000

abbrev pub clone_newipc : ℕ
clone_newipc = 0x0800_0000

abbrev pub clone_newuser : ℕ
clone_newuser = 0x1000_0000

abbrev pub clone_newpid : ℕ
clone_newpid = 0x2000_0000

abbrev pub clone_newnet : ℕ
clone_newnet = 0x4000_0000

-- if (condition) flags |= flag;
abbrev pub add_flag : Bool → ℕ → ℕ → ℕ
add_flag condition flag flags = if condition then bit_or flags flag else flags

unfoldable pub get_clone_flags : NamespaceConfig → ℕ
get_clone_flags c =
    let flags = add_flag c.pid clone_newpid 0 in
    let flags = add_flag c.net clone_newnet flags in
    let flags = add_flag c.mnt clone_newns flags in
    let flags = add_flag c.uts clone_newuts flags in
    let flags = add_flag c.ipc clone_newipc flags in
    let flags = add_flag c.user clone_newuser flags in add_flag c.cgroup clone_newcgroup flags

unfoldable pub namespace_get_clone_flags : NamespaceConfig → ℕ
unfolding get_clone_flags
namespace_get_clone_flags c = get_clone_flags c

abbrev pub ms_rdonly : ℕ
ms_rdonly = 1

abbrev pub ms_nosuid : ℕ
ms_nosuid = 2

abbrev pub ms_nodev : ℕ
ms_nodev = 4

abbrev pub ms_noexec : ℕ
ms_noexec = 8

abbrev pub ms_remount : ℕ
ms_remount = 32

abbrev pub ms_bind : ℕ
ms_bind = 4096

abbrev pub ms_rec : ℕ
ms_rec = 16384

abbrev pub ms_private : ℕ
ms_private = 2 ^ 18

abbrev pub ms_strictatime : ℕ
ms_strictatime = 2 ^ 24

abbrev pub mnt_detach : ℕ
mnt_detach = 2

-- snprintf(buffer, MAX_PATH_LEN, "%s<name>", rootfs).
unfoldable pub below : Bytes → Bytes → Bytes
below rootfs name = snprintf max_path_len (rootfs ++ name)

-- The target of a volume.
unfoldable pub volume_target : Bytes → MountPoint → Bytes
volume_target rootfs mp = snprintf max_path_len (rootfs ++ mp.target)

-- sprintf(map_data, "0 %d 1", id).
unfoldable pub map_line : ℕ → Bytes
map_line id = codes "0 " ++ (print_int (to_int32 id) ++ codes " 1")

module _ (H : Host) where
  -- A mount of a kernel file system, with the directory made first; a failure only warns.
  unfoldable pub mount_special : Bytes → ℕ → Bytes → ℕ → Option Bytes → M (Unit {0})
  mount_special path mode fstype flags options = do
    call H (mkdir path mode)
    call H (mount (some fstype) path (some fstype) flags options)
    pure tt

  -- The loop over config->mounts.
  unfoldable pub mount_volumes : Bytes → List MountPoint → M Code
  mount_volumes rootfs [] = pure ok
  mount_volumes rootfs (mp ∷ rest) =
      let next = mount_volumes rootfs rest in
      do
        call H (mkdir (volume_target rootfs mp) 0o755)
        mounted ← call H (
            mount (some mp.source) (volume_target rootfs mp) (some mp.fstype) mp.flags
              (some mp.options))
        if is_failure mounted then pure esyscall else next

  -- The file systems that the function mounts between the root and the volumes.
  unfoldable pub mount_specials : Bytes → M (Unit {0})
  mount_specials r = do
    mount_special (below r (codes "/proc")) 0o755 (codes "proc") 0 none
    mount_special (below r (codes "/sys")) 0o755 (codes "sysfs") 0 none
    mount_special (below r (codes "/dev")) 0o755 (codes "devtmpfs")
        (bit_or ms_nosuid ms_strictatime) (some (codes "mode=755"))
    mount_special (below r (codes "/dev/pts")) 0o755 (codes "devpts") 0
        (some (codes "newinstance,ptmxmode=0666"))
    mount_special (below r (codes "/tmp")) 0o1777 (codes "tmpfs") (bit_or ms_nosuid ms_nodev)
        (some (codes "mode=1777"))
    mount_special (below r (codes "/run")) 0o755 (codes "tmpfs")
        (bit_or (bit_or ms_nosuid ms_nodev) ms_noexec) (some (codes "mode=755"))

  -- if (config->readonly_rootfs) { … }
  unfoldable pub mount_readonly : ContainerConfig → M Code
  mount_readonly c =
      if c.readonly_rootfs
      then (do
        remounted ←
            call H (mount none c.rootfs none (bit_or (bit_or ms_bind ms_remount) ms_rdonly) none)
        pure (if is_failure remounted then esyscall else ok))
      else pure ok

  unfoldable pub namespace_setup_mounts : ContainerConfig → M Code
  namespace_setup_mounts c = do
    private ← call H (mount none (codes "/") none (bit_or ms_private ms_rec) none)
    if is_failure private then pure esyscall else do
      bound ← call H (mount (some c.rootfs) c.rootfs none (bit_or ms_bind ms_rec) none)
      if is_failure bound then pure esyscall else do
        protected ← mount_readonly c
        elim protected [
          | ok ↦ (do mount_specials c.rootfs; mount_volumes c.rootfs c.mounts)
          | _ ↦ pure esyscall
        ]

  unfoldable pub namespace_pivot_root : Bytes → M Code
  namespace_pivot_root new_root = do
    let old_root = below new_root (codes "/.oldroot")
    call H (mkdir old_root 0o700)
    pivoted ← call H (pivot_root new_root old_root)
    if is_failure pivoted then pure esyscall else do
      moved ← call H (chdir (codes "/"))
      if is_failure moved then pure esyscall else do
        unmounted ← call H (umount2 (codes "/.oldroot") mnt_detach)
        if is_failure unmounted
            then pure esyscall
            else do call H (rmdir (codes "/.oldroot")); pure ok

  unfoldable pub namespace_setup_uts : Bytes → M Code
  namespace_setup_uts hostname = do
    named ← call H (sethostname hostname (length hostname))
    pure (if is_failure named then esyscall else ok)

  -- if (fd >= 0) { write(fd, "deny", 4); close(fd); }
  unfoldable pub deny_setgroups : M (Unit {0})
  deny_setgroups = do
    opened ← call H (open_file (codes "/proc/self/setgroups") write_only 0)
    if is_failure opened then pure tt else do
      call H (write (result opened) (codes "deny"))
      call H (close (result opened))
      pure tt

  -- The opening, writing and closing of uid_map, and again of gid_map.
  unfoldable pub write_map : Bytes → Bytes → M Code
  write_map map_path map_data = do
    opened ← call H (open_file map_path write_only 0)
    if is_failure opened then pure esyscall else do
      wrote ← call H (write (result opened) map_data)
      call H (close (result opened))
      pure (if is_failure wrote then esyscall else ok)

  unfoldable pub namespace_setup_user : ℕ → ℕ → M Code
  namespace_setup_user uid gid = do
    deny_setgroups
    mapped ← write_map (codes "/proc/self/uid_map") (map_line uid)
    elim mapped [ ok ↦ write_map (codes "/proc/self/gid_map") (map_line gid) | _ ↦ pure esyscall ]

  unfoldable pub namespace_join : Bytes → ℕ → M Code
  namespace_join ns_path ns_type = do
    opened ← call H (open_file ns_path read_only 0)
    if is_failure opened then pure esyscall else do
      joined ← call H (setns (result opened) ns_type)
      call H (close (result opened))
      pure (if is_failure joined then esyscall else ok)

  -- if (last_slash) { *last_slash = '\0'; mkdir(dir, 0755); }
  unfoldable pub make_parent : Option Bytes → M (Unit {0})
  make_parent none = pure tt
  make_parent (some dir) = do call H (mkdir dir 0o755); pure tt

  unfoldable pub namespace_persist : ℤ → Bytes → Bytes → M Code
  namespace_persist pid ns_name persist_path = do
    let src = snprintf 256 (codes "/proc/" ++ (print_int pid ++ (codes "/ns/" ++ ns_name)))
    make_parent (strrchr b'/' persist_path)
    opened ← call H (open_file persist_path create_exclusive 0o444)
    if is_failure opened then pure esyscall else do
      call H (close (result opened))
      bound ← call H (mount (some src) persist_path none ms_bind none)
      if is_failure bound then (do call H (unlink persist_path); pure esyscall) else pure ok
