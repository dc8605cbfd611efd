-- ===== src/Namespace/Attempts.antt =====
-- The order in which namespace_setup_mounts tries its mounts, and which failures count.
use Prim.Native.Nat.{bit_or}
use cruntm.Base.{
  ℕ, none, some, ◌≡◌, inl, inr, Bool, Option, List, [], ◌∷◌, ◌++◌, map, backwards, Bool-cases,
}
use cruntm.Text.{Bytes, codes}
use cruntm.Types.{MountPoint, ContainerConfig, Code, is_ok}
use cruntm.Host.{Host, Trace, Call, mkdir, mount, call, is_failure}
use cruntm.Host.Plans.{
  Step, must, may, Execution, logged, Run, Run-tried, Run-must, Run-passed, Run-refused, Run-done,
}
use cruntm.Namespace.{
  ms_nosuid, ms_nodev, ms_noexec, ms_strictatime, below, ms_rdonly, ms_remount, ms_bind, ms_rec,
  ms_private, mount_special, mount_volumes, mount_specials, mount_readonly, namespace_setup_mounts,
  volume_target,
}
use cruntm.Namespace.Mounts.{volume, required}

-- A special file system and its directory, in front of the other steps.
abbrev attempt : Bytes → ℕ → Bytes → ℕ → Option Bytes → List (Step Call) → List (Step Call)
attempt path mode fstype flags options rest =
    may (mkdir path mode) ∷ may (mount (some fstype) path (some fstype) flags options) ∷ rest

-- The special file systems, in front of the other steps.
abbrev special_steps : Bytes → List (Step Call) → List (Step Call)
special_steps r rest = attempt (below r (codes "/proc")) 0o755 (codes "proc") 0 none (
    attempt (below r (codes "/sys")) 0o755 (codes "sysfs") 0 none (
      attempt (below r (codes "/dev")) 0o755 (codes "devtmpfs") (bit_or ms_nosuid ms_strictatime)
        (some (codes "mode=755"))
        (attempt (below r (codes "/dev/pts")) 0o755 (codes "devpts") 0
          (some (codes "newinstance,ptmxmode=0666"))
          (attempt (below r (codes "/tmp")) 0o1777 (codes "tmpfs") (bit_or ms_nosuid ms_nodev)
            (some (codes "mode=1777"))
            (attempt (below r (codes "/run")) 0o755 (codes "tmpfs")
              (bit_or (bit_or ms_nosuid ms_nodev) ms_noexec) (some (codes "mode=755")) rest)))))

-- The volumes and the directories on which they are mounted.
abbrev volume_steps : Bytes → List MountPoint → List (Step Call)
volume_steps r [] = []
volume_steps r (mp ∷ vs) =
    may (mkdir (volume_target r mp) 0o755) ∷ must (volume r mp) ∷ volume_steps r vs

-- First the mounts that are required, then the special file systems, then the volumes.
abbrev pub mount_plan : ContainerConfig → List (Step Call)
mount_plan c = map must (required c) ++ special_steps c.rootfs (volume_steps c.rootfs c.mounts)

module _ (H : Host) where
  mount_special-Run :
      {plan : List (Step Call)} (path : Bytes) (mode : ℕ) (fstype : Bytes) (flags : ℕ)
      (options : Option Bytes) (t : Trace) (r : Code × Trace)
      → Run plan (mount_special H path mode fstype flags options t).1 r
      → Run (attempt path mode fstype flags options plan) t r
  unfolding mount_special
  mount_special-Run path mode fstype flags options t r h = Run-tried H t r (Run-tried H _ r h)

  mount_specials-Run :
      {plan : List (Step Call)} (rootfs : Bytes) (t : Trace) (r : Code × Trace)
      → Run plan (mount_specials H rootfs t).1 r
      → Run (special_steps rootfs plan) t r
  unfolding mount_specials
  mount_specials-Run rootfs t r h = mount_special-Run _ _ _ _ _ t r (
      mount_special-Run _ _ _ _ _ _ r (
        mount_special-Run _ _ _ _ _ _ r (
          mount_special-Run _ _ _ _ _ _ r
            (mount_special-Run _ _ _ _ _ _ r (mount_special-Run _ _ _ _ _ _ r h)))))

  mount_volumes-Run :
      (rootfs : Bytes) (vs : List MountPoint) (t : Trace)
      → Run (volume_steps rootfs vs) t (mount_volumes H rootfs vs t)
  unfolding mount_volumes
  mount_volumes-Run rootfs [] t = Run-done H t
  mount_volumes-Run rootfs (mp ∷ vs) t =
      Run-tried H {x = mkdir (volume_target rootfs mp) 0o755} t _
        (Run-must H _ _ (mount_volumes-Run rootfs vs _))

  mount_rest-Run :
      (c : ContainerConfig) (u : Trace)
      → Run
          (special_steps c.rootfs (volume_steps c.rootfs c.mounts))
          u
          (mount_volumes H c.rootfs c.mounts (mount_specials H c.rootfs u).1)
  mount_rest-Run c u =
      mount_specials-Run c.rootfs u _
        (mount_volumes-Run c.rootfs c.mounts (mount_specials H c.rootfs u).1)

  -- The function makes the calls of the plan in order and no others: it makes the whole tree private,
  -- mounts the root, protects it if it is to be read-only, and then makes the directory and the mount
  -- of each of the six special file systems and of each volume. The first of the mounts that fails
  -- ends the function, except that a special file system that cannot be mounted is passed over. The
  -- code is CR_OK exactly when the plan came to its end.
  pub namespace_setup_mounts-Execution :
      (c : ContainerConfig) (t : Trace)
      → let (code, t') = namespace_setup_mounts H c t in
        (log : List (Call × Bool)) × (logged t' ≡ backwards log ++ logged t)
        × Execution (mount_plan c) log (is_ok code)
  unfolding namespace_setup_mounts mount_readonly
  namespace_setup_mounts-Execution c t =
      let private = mount none (codes "/") none (bit_or ms_private ms_rec) none in
      let bound = mount (some c.rootfs) c.rootfs none (bit_or ms_bind ms_rec) none in
      let remount = mount none c.rootfs none (bit_or (bit_or ms_bind ms_remount) ms_rdonly) none in
      let u = (call H bound (call H private t).1).1 in
      Run-must H _ _ (
        Run-must H _ _ (elim (Bool-cases c.readonly_rootfs) [
          | inl r ↦ elim (Bool-cases (is_failure (H.answer u remount))) [
            | inl f ↦ rw (r, f) (Run-refused H u f)
            | inr f ↦ rw (r, f) (Run-passed H u _ f (mount_rest-Run c (call H remount u).1))
          ]
          | inr r ↦ rw r (mount_rest-Run c u)
        ]))
