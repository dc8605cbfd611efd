-- ===== src/Storage/Layers.antt =====
-- The creation of a layer from a directory.
use cruntm.Base.{ℕ, Bool, ◌≡◌, refl, ◌⊎◌, inl, inr, true, false, ◌∷◌, arith, Bool-cases}
use cruntm.Text.{Bytes, codes, snprintf}
use cruntm.Types.{max_path_len, RuntimeCtx, ok, error, is_ok}
use cruntm.Host.{Host, Trace, system}
use cruntm.Host.Mounts.{calls}
use cruntm.Storage.{
  strip_slash, layer_path_of, copy_command, mkdir_recursive, storage_create_layer, overlay_path,
  storage_commit_container,
}
use cruntm.Storage.Directories.{IsFileSystem, mkdir_from_last}

module _ (H : Host) (present : Trace → Bytes → Bool) (fs : IsFileSystem H present) where
  mkdir_recursive-last :
      (path : Bytes) (t : Trace)
      → is_ok (mkdir_recursive H path 0o755 t).0 ≡ true
      → present (mkdir_recursive H path 0o755 t).1 (strip_slash (snprintf max_path_len path)) ≡ true
  unfolding mkdir_recursive
  mkdir_recursive-last path t e =
      mkdir_from_last H present fs 0o755 (strip_slash (snprintf max_path_len path)) t (ground arith)

  -- The source is copied into the layer's directory when that directory (its path cut to the buffer
  -- of mkdir_recursive, without one slash at its end) is there, and then the code is CR_OK. Where the
  -- directory cannot be made nothing is copied, and the code is CR_ERROR. The host's mkdir behaves as
  -- documented.
  storage_create_layer-present :
      (ctx : RuntimeCtx) (source id : Bytes) (n : ℕ) (t : Trace)
      → let path = layer_path_of n ctx id in
        let u = (mkdir_recursive H path 0o755 t).1 in
        let (result, t') = storage_create_layer H ctx source id n t in
        ((result ≡ (ok, path))
          × (present u (strip_slash (snprintf max_path_len path)) ≡ true)
          × (calls t' ≡ system (copy_command source path) ∷ calls u))
        ⊎ ((result ≡ (error, path)) × (calls t' ≡ calls u))
  unfolding storage_create_layer calls
  storage_create_layer-present ctx source id n t =
      let path = layer_path_of n ctx id in
      elim (Bool-cases (is_ok (mkdir_recursive H path 0o755 t).0)) [
        | inl e ↦ inl (ground arith, mkdir_recursive-last path t e, ground arith)
        | inr e ↦ inr (ground arith, ground arith)
      ]

-- The commit of a container is the creation of a layer from its upper directory, call for call and
-- both with CR_OK, where mkdir_recursive makes the directory of the layer. Where it returns an error,
-- the commit copies all the same and returns CR_OK, and the creation copies nothing and returns
-- CR_ERROR.
pub commit-create_layer :
    (H : Host) (ctx : RuntimeCtx) (id layer : Bytes) (t : Trace)
    → let upper = overlay_path ctx id (codes "/upper") in
      let path = layer_path_of max_path_len ctx layer in
      let (created, u) = storage_create_layer H ctx upper layer max_path_len t in
      let (code, t') = storage_commit_container H ctx id layer t in
      let made = is_ok (mkdir_recursive H path 0o755 t).0 in
      ((made ≡ true) × (created ≡ (ok, path)) × (code ≡ ok) × (t' ≡ u))
      ⊎ ((made ≡ false)
          × (created ≡ (error, path))
          × (code ≡ ok)
          × (calls t' ≡ system (copy_command upper path) ∷ calls u))
unfolding storage_create_layer storage_commit_container calls
commit-create_layer H ctx id layer t =
    let path = layer_path_of max_path_len ctx layer in
    elim (Bool-cases (is_ok (mkdir_recursive H path 0o755 t).0)) [
      | inl e ↦ inl (e, rw e refl, refl, rw e refl)
      | inr e ↦ inr (e, rw e refl, refl, rw e refl)
    ]
