-- ===== src/Storage/Unmount.antt =====
-- The removal of a container's overlay undoes its mount.
use cruntm.Base.{ℕ, ◌≡◌, refl, ◌∙◌, Bool, true, false, List, [], ◌∷◌, arith, if◌then◌else◌}
use cruntm.Text.{Bytes, codes}
use cruntm.Text.Laws.{equal, equal_refl}
use cruntm.Types.{ContainerImage, RuntimeCtx, is_ok}
use cruntm.Host.{Host, Trace, Call, call, mkdir, mount, umount2, Reply, value, is_failure}
use cruntm.Namespace.{mnt_detach}
use cruntm.Storage.{
  overlay_path, mkdir_recursive, storage_mount_overlay, storage_unmount_overlay,
  storage_remove_overlay,
}
use cruntm.Storage.Overlay.{mkdir_recursive-kept}

-- Without the place that was mounted last.
unfoldable pub without : Bytes → List Bytes → List Bytes
without p [] = []
without p (q ∷ places) = if equal q p then places else q ∷ without p places

unfoldable pub is_mounted : Bytes → List Bytes → Bool
is_mounted p [] = false
is_mounted p (q ∷ places) = if equal q p then true else is_mounted p places

abbrev place_step : Call → Reply → List Bytes → List Bytes
place_step (mount source target fstype flags options) (value n) places = target ∷ places
place_step (umount2 target flags) (value n) places = without target places
place_step _ r places = places

-- The places where something is mounted, the latest first.
unfoldable pub places_of : Trace → List Bytes
places_of [] = []
places_of (e ∷ t) = place_step e.call e.reply (places_of t)

-- The documented behaviour of a lazy umount2: it takes the mount off a place where one is.
pub record Unmounts (H : Host) : Type 0 where
  pub detaches :
      (t : Trace) (p : Bytes)
      → is_mounted p (places_of t) ≡ true
      → is_failure (H.answer t (umount2 p mnt_detach)) ≡ false

module _ (H : Host) where
  mkdir-places_of :
      (path : Bytes) (mode : ℕ) (t : Trace) → places_of (call H (mkdir path mode) t).1 ≡ places_of t
  unfolding places_of
  mkdir-places_of path mode t = refl

  storage_mount_overlay-places_of :
      (ctx : RuntimeCtx) (image : ContainerImage) (id buffer : Bytes) (n : ℕ) (t : Trace)
      → let ((code, place), t') = storage_mount_overlay H ctx image id buffer n t in
        places_of t'
        ≡ (if is_ok code then overlay_path ctx id (codes "/merged") ∷ places_of t else places_of t)
  unfolding storage_mount_overlay places_of
  storage_mount_overlay-places_of ctx image id buffer n t =
      let keep = mkdir_recursive-kept H places_of mkdir-places_of in
      let t₁ = (mkdir_recursive H (overlay_path ctx id (codes "/upper")) 0o755 t).1 in
      let t₂ = (mkdir_recursive H (overlay_path ctx id (codes "/work")) 0o755 t₁).1 in
      ground (
        arith,
        keep (overlay_path ctx id (codes "/upper")) 0o755 t,
        keep (overlay_path ctx id (codes "/work")) 0o755 t₁,
        keep (overlay_path ctx id (codes "/merged")) 0o755 t₂,
      )

  unmount-places_of :
      Unmounts H
      → (ctx : RuntimeCtx) (id : Bytes) (t : Trace)
      → is_mounted (overlay_path ctx id (codes "/merged")) (places_of t) ≡ true
      → places_of (storage_remove_overlay H ctx id t).1
        ≡ without (overlay_path ctx id (codes "/merged")) (places_of t)
  unfolding storage_remove_overlay storage_unmount_overlay places_of
  unmount-places_of unmounts ctx id t h =
      let gone = unmounts.detaches t (overlay_path ctx id (codes "/merged")) h in ground arith

  -- Where the overlay of a container was mounted with CR_OK, its removal takes exactly that mount away:
  -- something is mounted at the same places as before, as often and in the same order. Nothing is
  -- asked of what was mounted there before. The lazy umount2 behaves as documented.
  pub mount-remove_overlay :
      Unmounts H
      → (ctx : RuntimeCtx) (image : ContainerImage) (id buffer : Bytes) (n : ℕ) (t : Trace)
      → is_ok (storage_mount_overlay H ctx image id buffer n t).0.0 ≡ true
      → places_of
          (storage_remove_overlay H ctx id (storage_mount_overlay H ctx image id buffer n t).1).1
        ≡ places_of t
  unfolding is_mounted without
  mount-remove_overlay unmounts ctx image id buffer n t h =
      let merged = overlay_path ctx id (codes "/merged") in
      let u = (storage_mount_overlay H ctx image id buffer n t).1 in
      let there : places_of u ≡ merged ∷ places_of t =
        storage_mount_overlay-places_of ctx image id buffer n t ∙ rw h refl in
      unmount-places_of unmounts ctx id u (rw there (rw (equal_refl merged) refl))
      ∙ rw there (rw (equal_refl merged) refl)
