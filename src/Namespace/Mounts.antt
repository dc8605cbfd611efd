-- ===== src/Namespace/Mounts.antt =====
-- Which mounts namespace_setup_mounts has made when it returns.
use Prim.Native.Nat.{bit_or}
use cruntm.Base.{
  ℕ, suc, ◌<◌, ◌≡◌, refl, ap, ◌∙◌, take-eq_self, length-map, ◌⊎◌, ◌↔◌, inl, inr, Bool, true, not,
  Option, none, some, List, [], ◌∷◌, ◌++◌, append_assoc, arith, take, length, map, backwards,
  Bool-cases, if◌then◌else◌,
}
use cruntm.Text.{Bytes, codes}
use cruntm.Types.{MountPoint, ContainerConfig, ok, esyscall, is_ok}
use cruntm.Host.{Host, Trace, Call, mkdir, mount, call, is_failure}
use cruntm.Host.Mounts.{mounted}
use cruntm.Namespace.{
  ms_rdonly, ms_nosuid, ms_nodev, ms_noexec, ms_remount, ms_bind, ms_rec, ms_private,
  ms_strictatime, below, volume_target, mount_special, mount_volumes, mount_specials,
  mount_readonly, namespace_setup_mounts,
}

-- The bind mount of a volume.
abbrev pub volume : Bytes → MountPoint → Call
volume rootfs mp =
    mount (some mp.source) (volume_target rootfs mp) (some mp.fstype) mp.flags (some mp.options)

-- The mounts that have to succeed, in order.
abbrev pub required : ContainerConfig → List Call
required c =
    mount none (codes "/") none (bit_or ms_private ms_rec) none
    ∷ mount (some c.rootfs) c.rootfs none (bit_or ms_bind ms_rec) none
    ∷ (if c.readonly_rootfs
        then mount none c.rootfs none (bit_or (bit_or ms_bind ms_remount) ms_rdonly) none ∷ []
        else [])

abbrev special : Bytes → Bytes → Bytes → ℕ → Option Bytes → Call
special r name fstype flags options = mount (some fstype) (below r name) (some fstype) flags options

-- The mounts that may fail, in order.
abbrev pub specials : Bytes → List Call
specials r =
    special r (codes "/proc") (codes "proc") 0 none
    ∷ special r (codes "/sys") (codes "sysfs") 0 none
    ∷ special r (codes "/dev") (codes "devtmpfs") (bit_or ms_nosuid ms_strictatime)
        (some (codes "mode=755"))
    ∷ special r (codes "/dev/pts") (codes "devpts") 0 (some (codes "newinstance,ptmxmode=0666"))
    ∷ special r (codes "/tmp") (codes "tmpfs") (bit_or ms_nosuid ms_nodev)
        (some (codes "mode=1777"))
    ∷ special r (codes "/run") (codes "tmpfs") (bit_or (bit_or ms_nosuid ms_nodev) ms_noexec)
        (some (codes "mode=755"))
    ∷ []

-- The calls with a mark `true` in front of what was done before.
abbrev pub pick : List Bool → List Call → List Call → List Call
pick [] cs done = done
pick (b ∷ bs) [] done = done
pick (b ∷ bs) (c ∷ cs) done = pick bs cs (if b then c ∷ done else done)

abbrev drop_two : List Call → List Call
drop_two (x ∷ y ∷ rest) = rest
drop_two _ = []

module _ (H : Host) where
  mount_special-mounted :
      (path : Bytes) (mode : ℕ) (fstype : Bytes) (flags : ℕ) (options : Option Bytes) (t : Trace)
      → (b : Bool) × (mounted (mount_special H path mode fstype flags options t).1 ≡ (
          if b
          then mount (some fstype) path (some fstype) flags options ∷ mounted t
          else mounted t))
  unfolding mount_special mounted
  mount_special-mounted path mode fstype flags options t =
      let u = (call H (mkdir path mode) t).1 in
      (
        not (is_failure (H.answer u (mount (some fstype) path (some fstype) flags options))),
        ground arith,
      )

  mount_specials-mounted :
      (r : Bytes) (t : Trace)
      → (bs : List Bool) × (mounted (mount_specials H r t).1 ≡ pick bs (specials r) (mounted t))
  unfolding mount_specials
  mount_specials-mounted r t =
      let (b₁, e₁) =
        mount_special-mounted (below r (codes "/proc")) 0o755 (codes "proc") 0 none t in
      let t₁ = (mount_special H (below r (codes "/proc")) 0o755 (codes "proc") 0 none t).1 in
      let (b₂, e₂) =
        mount_special-mounted (below r (codes "/sys")) 0o755 (codes "sysfs") 0 none t₁ in
      let t₂ = (mount_special H (below r (codes "/sys")) 0o755 (codes "sysfs") 0 none t₁).1 in
      let (b₃, e₃) =
        mount_special-mounted (below r (codes "/dev")) 0o755 (codes "devtmpfs")
          (bit_or ms_nosuid ms_strictatime) (some (codes "mode=755")) t₂ in
      let t₃ =
        (mount_special H (below r (codes "/dev")) 0o755 (codes "devtmpfs")
          (bit_or ms_nosuid ms_strictatime) (some (codes "mode=755")) t₂).1 in
      let (b₄, e₄) =
        mount_special-mounted (below r (codes "/dev/pts")) 0o755 (codes "devpts") 0
          (some (codes "newinstance,ptmxmode=0666")) t₃ in
      let t₄ =
        (mount_special H (below r (codes "/dev/pts")) 0o755 (codes "devpts") 0
          (some (codes "newinstance,ptmxmode=0666")) t₃).1 in
      let (b₅, e₅) =
        mount_special-mounted (below r (codes "/tmp")) 0o1777 (codes "tmpfs")
          (bit_or ms_nosuid ms_nodev) (some (codes "mode=1777")) t₄ in
      let t₅ =
        (mount_special H (below r (codes "/tmp")) 0o1777 (codes "tmpfs") (bit_or ms_nosuid ms_nodev)
          (some (codes "mode=1777")) t₄).1 in
      let (b₆, e₆) =
        mount_special-mounted (below r (codes "/run")) 0o755 (codes "tmpfs")
          (bit_or (bit_or ms_nosuid ms_nodev) ms_noexec) (some (codes "mode=755")) t₅ in
      (b₁ ∷ b₂ ∷ b₃ ∷ b₄ ∷ b₅ ∷ b₆ ∷ [], e₆ ∙ rw e₅ (rw e₄ (rw e₃ (rw e₂ (rw e₁ refl)))))

  -- The volumes are mounted in order up to the first failure, and the code is CR_OK exactly when
  -- all of them are.
  mount_volumes-mounted :
      (r : Bytes) (vs : List MountPoint) (t : Trace)
      → let (code, t') = mount_volumes H r vs t in
        (n : ℕ) × (mounted t' ≡ backwards (take n (map (volume r) vs)) ++ mounted t)
        × ((is_ok code ≡ true) ↔ (length vs ≡ n))
  unfolding mount_volumes mounted take backwards
  mount_volumes-mounted r [] t = (0, refl, ground arith)
  mount_volumes-mounted r (mp ∷ vs) t =
      let u = (call H (mkdir (volume_target r mp) 0o755) t).1 in
      let v = (call H (volume r mp) u).1 in
      elim (Bool-cases (is_failure (H.answer u (volume r mp)))) [
        | inl h ↦ (0, ground arith, ground arith)
        | inr h ↦
            let (n, e, k) = mount_volumes-mounted r vs v in
            (
              suc n,
              ground (
                arith,
                append_assoc (backwards (take n (map (volume r) vs))) (volume r mp ∷ [])
                    (mounted t),
                e,
              ),
              ground (arith, k),
            )
      ]

  -- Behind the required mounts.
  mount_rest-mounted :
      (c : ContainerConfig) (u : Trace) (before : List Call)
      → mounted u ≡ before
      → let (code, t') = mount_volumes H c.rootfs c.mounts (mount_specials H c.rootfs u).1 in
        (n : ℕ) × (bs : List Bool) × (mounted t'
          ≡ backwards (take n (map (volume c.rootfs) c.mounts))
            ++ pick bs (specials c.rootfs) before)
        × ((is_ok code ≡ true) ↔ (length c.mounts ≡ n))
  mount_rest-mounted c u before h =
      let (bs, e) = mount_specials-mounted c.rootfs u in
      let (n, v, k) = mount_volumes-mounted c.rootfs c.mounts (mount_specials H c.rootfs u).1 in
      (n, bs, v ∙ rw e (rw h refl), k)

  mount_readonly-mounted :
      (c : ContainerConfig) (u : Trace)
      → let (code, u') = mount_readonly H c u in
        ((code ≡ ok) × (mounted u' ≡ backwards (drop_two (required c)) ++ mounted u))
        ⊎ ((code ≡ esyscall) × (length (required c) ≡ 3) × (mounted u' ≡ mounted u))
  unfolding mount_readonly mounted backwards
  mount_readonly-mounted c u = elim (Bool-cases c.readonly_rootfs) [
    | inl r ↦
        let remount =
          mount none c.rootfs none (bit_or (bit_or ms_bind ms_remount) ms_rdonly) none in
        elim (Bool-cases (is_failure (H.answer u remount))) [
          | inl f ↦ inr (ground arith, ground arith, ground arith)
          | inr f ↦ inl (ground arith, ground arith)
        ]
    | inr r ↦ inl (ground arith, ground arith)
  ]

  -- Either a required mount failed: then only those before it were made, and the code is an error.
  -- Or all of them were made, the root's own mount before any other in it and the protection of a
  -- read-only root included; then come those of the special file systems that the host allows, and
  -- the volumes in order up to the first failure. The code is CR_OK exactly when no volume failed.
  namespace_setup_mounts-mounted :
      (c : ContainerConfig) (t : Trace)
      → let (code, t') = namespace_setup_mounts H c t in
        ((n : ℕ) × (n < length (required c))
          × (mounted t' ≡ backwards (take n (required c)) ++ mounted t)
          × (code ≡ esyscall))
        ⊎ ((n : ℕ) × (bs : List Bool) × (mounted t'
              ≡ backwards (take n (map (volume c.rootfs) c.mounts))
                ++ pick bs (specials c.rootfs) (backwards (required c) ++ mounted t))
            × ((is_ok code ≡ true) ↔ (length c.mounts ≡ n)))
  unfolding namespace_setup_mounts mounted take backwards
  namespace_setup_mounts-mounted c t =
      let private = mount none (codes "/") none (bit_or ms_private ms_rec) none in
      let bound = mount (some c.rootfs) c.rootfs none (bit_or ms_bind ms_rec) none in
      let t₁ = (call H private t).1 in
      let t₂ = (call H bound t₁).1 in
      elim (Bool-cases (is_failure (H.answer t private))) [
        | inl a ↦ inl (0, ground arith, ground arith, ground arith)
        | inr a ↦ elim (Bool-cases (is_failure (H.answer t₁ bound))) [
          | inl b ↦ inl (1, ground arith, ground arith, ground arith)
          | inr b ↦
              let t₃ = (call H bound t₁).1 in
              elim (mount_readonly-mounted c t₃) [
                | inl (good, e) ↦
                    let before = backwards (required c) ++ mounted t in
                    let (n, bs, v, k) =
                      mount_rest-mounted c (mount_readonly H c t₃).1 before (ground (arith, e)) in
                    inr (n, bs, ground (arith, v), ground (arith, k))
                | inr (bad, three, e) ↦
                    inl (2, omega (arith, three), ground (arith, e), ground arith)
              ]
        ]
      ]

  -- With CR_OK all volumes are mounted, behind everything else.
  pub namespace_setup_mounts-volumes :
      (c : ContainerConfig) (t : Trace)
      → is_ok (namespace_setup_mounts H c t).0 ≡ true
      → (bs : List Bool) × (mounted (namespace_setup_mounts H c t).1
          ≡ backwards (map (volume c.rootfs) c.mounts)
            ++ pick bs (specials c.rootfs) (backwards (required c) ++ mounted t))
  namespace_setup_mounts-volumes c t good = elim (namespace_setup_mounts-mounted c t) [
    | inl (n, few, e, bad) ↦ absurd (ground arith)
    | inr (n, bs, e, k) ↦
        let whole =
          take-eq_self n (map (volume c.rootfs) c.mounts)
            (omega (arith, length-map (volume c.rootfs) c.mounts, k.0 good)) in
        (
          bs,
          e
              ∙ ap
                  (λ vs.
                    backwards vs
                    ++ pick bs (specials c.rootfs) (backwards (required c) ++ mounted t))
                  whole,
        )
  ]
