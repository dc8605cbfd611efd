-- ===== src/Storage/Overlay.antt =====
-- Mounting and removing the overlay of a container.
use cruntm.Base.{ℕ, ◌≡◌, refl, ◌↔◌, true, false, some, [], ◌∷◌, ◌++◌, arith, if◌then◌else◌}
use cruntm.Text.{Bytes, codes, strncpy}
use cruntm.Types.{ContainerImage, RuntimeCtx, ok, is_ok}
use cruntm.Host.{
  Host, Trace, call, mkdir, mount, umount2, system, is_failure, has_errno, einval_errno, enoent,
}
use cruntm.Host.Mounts.{mounted, calls}
use cruntm.Namespace.{mnt_detach}
use cruntm.Storage.{
  overlay_path, overlay_options, lowerdir_of, remove_command, mkdir_walk, mkdir_from,
  mkdir_recursive, storage_mount_overlay, storage_unmount_overlay, storage_remove_overlay,
}

-- What a trace says that no mkdir changes, the creation of a path does not change either.
module _ {A : Type 0} (H : Host) (view : Trace → A)
    (kept : (path : Bytes) (mode : ℕ) (t : Trace)
      → view (call H (mkdir path mode) t).1 ≡ view t) where
  mkdir_walk-kept :
      (mode : ℕ) (before cs : Bytes) (t : Trace) → view (mkdir_walk H mode before cs t).1 ≡ view t
  unfolding mkdir_walk
  mkdir_walk-kept mode before [] t = kept before mode t
  mkdir_walk-kept mode before (c ∷ cs) t = ground (
    arith,
    kept before mode t,
    mkdir_walk-kept mode (before ++ c ∷ []) cs t,
    mkdir_walk-kept mode (before ++ c ∷ []) cs (call H (mkdir before mode) t).1,
  )

  mkdir_from-kept : (mode : ℕ) (s : Bytes) (t : Trace) → view (mkdir_from H mode s t).1 ≡ view t
  unfolding mkdir_from
  mkdir_from-kept mode [] t = mkdir_walk-kept mode [] [] t
  mkdir_from-kept mode (c ∷ cs) t = mkdir_walk-kept mode (c ∷ []) cs t

  pub mkdir_recursive-kept :
      (path : Bytes) (mode : ℕ) (t : Trace) → view (mkdir_recursive H path mode t).1 ≡ view t
  unfolding mkdir_recursive
  mkdir_recursive-kept path mode t = mkdir_from-kept mode _ t

module _ (H : Host) where
  mkdir-mounted :
      (path : Bytes) (mode : ℕ) (t : Trace) → mounted (call H (mkdir path mode) t).1 ≡ mounted t
  unfolding mounted
  mkdir-mounted path mode t = refl

  mkdir_recursive-mounted :
      (path : Bytes) (mode : ℕ) (t : Trace) → mounted (mkdir_recursive H path mode t).1 ≡ mounted t
  mkdir_recursive-mounted = mkdir_recursive-kept H mounted mkdir-mounted

  -- Exactly when the code is CR_OK, one mount was made: the overlay of the image's layers, with the
  -- container's own upper, work and merged directories. The caller's buffer then holds the merged
  -- directory, cut to its size; otherwise it is left alone.
  pub storage_mount_overlay-mounted :
      (ctx : RuntimeCtx) (image : ContainerImage) (id buffer : Bytes) (n : ℕ) (t : Trace)
      → let (code, place) = (storage_mount_overlay H ctx image id buffer n t).0 in
        let merged = overlay_path ctx id (codes "/merged") in
        let options =
          overlay_options
            (lowerdir_of image.layers)
            (overlay_path ctx id (codes "/upper"))
            (overlay_path ctx id (codes "/work")) in
        (mounted (storage_mount_overlay H ctx image id buffer n t).1 ≡ (
          if is_ok code
          then mount (some (codes "overlay")) merged (some (codes "overlay")) 0 (some options)
            ∷ mounted t
          else mounted t))
        × (place ≡ (if is_ok code then strncpy n merged else buffer))
  unfolding storage_mount_overlay mounted
  storage_mount_overlay-mounted ctx image id buffer n t =
      let upper = overlay_path ctx id (codes "/upper") in
      let work = overlay_path ctx id (codes "/work") in
      let merged = overlay_path ctx id (codes "/merged") in
      let t₁ = (mkdir_recursive H upper 0o755 t).1 in
      let t₂ = (mkdir_recursive H work 0o755 t₁).1 in
      let e₁ = mkdir_recursive-mounted upper 0o755 t in
      let e₂ = mkdir_recursive-mounted work 0o755 t₁ in
      let e₃ = mkdir_recursive-mounted merged 0o755 t₂ in (ground (arith, e₁, e₂, e₃), ground arith)

  -- The workspace is removed only behind the attempt to unmount it, and in any case: also where the
  -- unmounting failed. The unmounting itself counts as done if the kernel says that nothing is
  -- mounted there or that the path is not there.
  storage_remove_overlay-calls :
      (ctx : RuntimeCtx) (id : Bytes) (t : Trace)
      → let merged = overlay_path ctx id (codes "/merged") in
        let gone = H.answer t (umount2 merged mnt_detach) in
        (calls (storage_remove_overlay H ctx id t).1
          ≡ system (remove_command (overlay_path ctx id [])) ∷ umount2 merged mnt_detach ∷ calls t)
        × ((storage_remove_overlay H ctx id t).0 ≡ ok)
        × ((is_ok (storage_unmount_overlay H merged t).0 ≡ false) ↔ (
            (is_failure gone ≡ true)
            × (has_errno einval_errno gone ≡ false)
            × (has_errno enoent gone ≡ false)))
  unfolding storage_remove_overlay storage_unmount_overlay calls
  storage_remove_overlay-calls ctx id t = (refl, refl, ground arith)
