-- ===== src/Main/Volumes.antt =====
-- A list of volumes: from the options of run to the mounts of the container.
use cruntm.Base.{
  ℕ, zero, suc, ◌-◌, ◌≡◌, refl, ap, ◌∙◌, inl, inr, Bool, true, some, List, [], ◌∷◌, ◌++◌, arith,
  take, length, map, All, backwards, ltb, Bool-cases,
}
use cruntm.Text.{Bytes, codes, snprintf, strncpy}
use cruntm.Text.Laws.{Lacks, strchr-append}
use cruntm.Types.{MountPoint, ContainerConfig, max_mounts, max_path_len, is_ok}
use cruntm.Host.{Host, Trace, Call, mount}
use cruntm.Host.Mounts.{mounted}
use cruntm.Utils.{Doubles}
use cruntm.Namespace.{ms_bind, volume_target, namespace_setup_mounts}
use cruntm.Namespace.Mounts.{volume, required, specials, pick, namespace_setup_mounts-volumes}
use cruntm.Main.{
  Parsed, letter, Settings, go, bind_volume, add_volume, apply_letter, apply_option, apply_options,
  default_settings,
}
use cruntm.Main.Repeated.{Array, Adds, apply_options-Adds}

-- What a user asks for by `-v source:target`.
pub record Volume : Type 0 where
  pub source : Bytes
  pub target : Bytes

abbrev pub bind : Volume → Parsed
bind v = letter b'v' (v.source ++ b':' ∷ v.target)

abbrev entry : Volume → MountPoint
entry v = bind_volume v.source v.target

abbrev pub with_mounts : List MountPoint → Settings → Settings
with_mounts mounts s = let c = s.config in record s { config = record c { mounts = mounts } }

-- The first colon is the one behind the source.
abbrev pub HasPlainSource : Volume → Type 0
HasPlainSource v = Lacks b':' v.source

-- The mount that brings the volume into the container's root.
abbrev pub bind_mount : Bytes → Volume → Call
bind_mount rootfs v =
    mount (some (strncpy (max_path_len - 1) v.source))
      (snprintf max_path_len (rootfs ++ strncpy (max_path_len - 1) v.target)) (some (codes "bind"))
      ms_bind (some [])

mount_array : Array MountPoint
mount_array = record {
  entries = λ s. s.config.mounts;
  with_entries = with_mounts;
  entries-with_entries = λ xs s. refl;
  with_entries_twice = λ xs ys s. refl;
  with_entries-entries = λ s. refl;
}

-- The settings for the volumes, before the image and the command are known.
abbrev pub bound_settings : List Volume → Bytes → ℕ → ℕ → Settings
bound_settings vs id uid gid =
    with_mounts (take max_mounts (map entry vs)) (default_settings id uid gid)

-- The configuration of the container, with the root that the image has.
abbrev pub bound_config : List Volume → Bytes → Bytes → ℕ → ℕ → ContainerConfig
bound_config vs id rootfs uid gid =
    let c = (bound_settings vs id uid gid).config in record c { rootfs = rootfs }

volume-bind_mount : (rootfs : Bytes) (v : Volume) → volume rootfs (entry v) ≡ bind_mount rootfs v
unfolding bind_volume volume_target
volume-bind_mount rootfs v = refl

volumes-bind_mount :
    (n : ℕ) (rootfs : Bytes) (vs : List Volume)
    → map (volume rootfs) (take n (map entry vs)) ≡ take n (map (bind_mount rootfs) vs)
unfolding take
volumes-bind_mount zero rootfs vs = refl
volumes-bind_mount (suc n) rootfs [] = refl
volumes-bind_mount (suc n) rootfs (v ∷ vs) =
    ap (λ m. m ∷ map (volume rootfs) (take n (map entry vs))) (volume-bind_mount rootfs v)
    ∙ ap (◌∷◌ (bind_mount rootfs v)) (volumes-bind_mount n rootfs vs)

module _ (D : Doubles) where
  bind-Adds :
      (vs : List Volume) → All HasPlainSource vs → All (Adds D mount_array max_mounts bind entry) vs
  unfolding apply_option apply_letter add_volume mount_array
  bind-Adds [] h = tt
  bind-Adds (v ∷ vs) h = (
    λ s. elim (Bool-cases (ltb (length s.config.mounts) max_mounts)) [
      | inl e ↦ rw (strchr-append b':' v.source v.target h.0, e, add_volume) refl
      | inr e ↦ rw (e, add_volume) refl
    ],
    bind-Adds vs h.1,
  )

  apply_options-bind :
      (vs : List Volume) (id : Bytes) (uid gid : ℕ)
      → All HasPlainSource vs
      → apply_options D (map bind vs) (default_settings id uid gid)
        ≡ go (bound_settings vs id uid gid)
  unfolding default_settings mount_array
  apply_options-bind vs id uid gid h =
      apply_options-Adds D mount_array max_mounts bind entry vs (default_settings id uid gid)
        (omega arith) (bind-Adds vs h)

  -- Any number of options `-v source:target`, with no colon in a source, are taken. When the mounts of
  -- a container with that configuration, and with whatever root, are then set up with CR_OK, the first
  -- 64 volumes are bound below that root, in their order, with no path longer than its field; before
  -- them lie the root's own mount, those of the special file systems that the host allows, and nothing
  -- else.
  pub apply_options-namespace_setup_mounts :
      (H : Host) (vs : List Volume) (id rootfs : Bytes) (uid gid : ℕ) (t : Trace)
      → All HasPlainSource vs
      → is_ok (namespace_setup_mounts H (bound_config vs id rootfs uid gid) t).0 ≡ true
      → (apply_options D (map bind vs) (default_settings id uid gid)
          ≡ go (bound_settings vs id uid gid))
        × ((bs : List Bool) × (mounted
                (namespace_setup_mounts H (bound_config vs id rootfs uid gid) t).1
              ≡ backwards (take max_mounts (map (bind_mount rootfs) vs))
                ++ pick bs
                    (specials rootfs)
                    (backwards (required (bound_config vs id rootfs uid gid)) ++ mounted t)))
  apply_options-namespace_setup_mounts H vs id rootfs uid gid t h good =
      let c = bound_config vs id rootfs uid gid in
      let (bs, e) = namespace_setup_mounts-volumes H c t good in
      (
        apply_options-bind vs id uid gid h,
        (
          bs,
          e
              ∙ ap
                  (λ ms.
                    backwards ms ++ pick bs (specials rootfs) (backwards (required c) ++ mounted t))
                  (volumes-bind_mount max_mounts rootfs vs),
        ),
      )
