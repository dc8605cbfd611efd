-- ===== src/Storage.antt =====
-- src/storage/storage.c: directories, layers, and the overlay mount of a container. The messages to
-- the log are left out; `cp`, `rsync`, `tar`, `rm` and `du` are commands of the shell.
pub mod Directories
pub mod Lower
pub mod Overlay
pub mod Counting
pub mod Unmount
pub mod Layers
pub mod Streams
use cruntm.Base.{
  ℕ, zero, suc, ◌+◌, ◌-◌, ◌*◌, ◌/◌, ◌%◌, ◌^◌, ◌≤◌, ◌<◌, ◌≡◌, refl, sym, ap, ◌∙◌, ◌≢◌, ◌⊎◌, ◌↔◌, inl,
  inr, Bool, true, false, not, ◌&&◌, ◌||◌, Option, none, some, List, [], ◌∷◌, ◌++◌, append-nil,
  append_assoc, arith, take, length, map, length-append, length-take-le, take-eq_self, All,
  backwards, ltb, leb, ◌==◌, ltb→lt, leb→le, ==_iff, Bool-cases, if◌then◌else◌,
}
use cruntm.Text.{Bytes, codes, snprintf, strncpy, decimal}
use cruntm.Types.{
  max_path_len, ImageLayer, ContainerImage, RuntimeCtx, Code, ok, error, esyscall, is_ok,
}
use cruntm.Host.{
  Host, M, pure, ◌>>=◌, ◌>>◌, call, delivered, mkdir, mount, umount2, system, popen, fscanf_size,
  pclose, opendir, readdir, closedir, Reply, is_failure, is_zero, result, has_errno, eexist_errno,
  einval_errno, enoent,
}
use cruntm.Namespace.{mnt_detach}
use cruntm.Buffer.{Report, empty, append}

-- if (tmp[len - 1] == '/') tmp[len - 1] = 0;
unfoldable pub strip_slash : Bytes → Bytes
strip_slash [] = []
strip_slash (c ∷ []) = if c == b'/' then [] else c ∷ []
strip_slash (c ∷ d ∷ rest) = c ∷ strip_slash (d ∷ rest)

-- snprintf(buffer, size, "%s/<name>", dir).
unfoldable pub join_path : ℕ → Bytes → Bytes → Bytes
join_path size dir name = snprintf size (dir ++ b'/' ∷ name)

-- "%s/overlay/%s/<part>"
unfoldable pub overlay_path : RuntimeCtx → Bytes → Bytes → Bytes
overlay_path ctx container_id part =
    snprintf max_path_len (ctx.image_dir ++ (codes "/overlay/" ++ (container_id ++ part)))

-- "%s/layers/%s" in a buffer of `size` bytes.
unfoldable pub layer_path_of : ℕ → RuntimeCtx → Bytes → Bytes
layer_path_of size ctx layer_id = snprintf size (ctx.image_dir ++ (codes "/layers/" ++ layer_id))

-- strncat(buffer, text, size - strlen(buffer) - 1).
unfoldable pub append_cut : ℕ → Bytes → Bytes → Bytes
append_cut size buffer text = buffer ++ take (size - length buffer - 1) text

-- One round of the loop that builds `lowerdir`.
unfoldable pub lower_step : ℕ → Bytes → Bytes → Bytes
lower_step size lowerdir diff_path =
    append_cut size
      (if ltb 0 (length lowerdir) then append_cut size lowerdir (codes ":") else lowerdir) diff_path

-- The rounds over the given paths, in their order.
unfoldable pub lower_loop : ℕ → Bytes → List Bytes → Bytes
lower_loop size lowerdir [] = lowerdir
lower_loop size lowerdir (p ∷ ps) = lower_loop size (lower_step size lowerdir p) ps

abbrev pub diff_paths : List ImageLayer → List Bytes
diff_paths [] = []
diff_paths (l ∷ ls) = l.diff_path ∷ diff_paths ls

-- for (int i = image->num_layers - 1; i >= 0; i--), from an empty buffer.
unfoldable pub lowerdir_of : List ImageLayer → Bytes
lowerdir_of layers = lower_loop (max_path_len * 4) [] (backwards (diff_paths layers))

unfoldable pub overlay_options : Bytes → Bytes → Bytes → Bytes
overlay_options lowerdir upperdir workdir = snprintf (max_path_len * 5) (
    codes "lowerdir="
    ++ (lowerdir ++ (codes ",upperdir=" ++ (upperdir ++ (codes ",workdir=" ++ workdir)))))

unfoldable pub copy_command : Bytes → Bytes → Bytes
copy_command source layer_path =
    snprintf (max_path_len * 2)
      (codes "cp -a " ++ (source ++ (codes "/* " ++ (layer_path ++ codes "/ 2>/dev/null || true"))))

unfoldable pub remove_command : Bytes → Bytes
remove_command path = snprintf (max_path_len * 2) (codes "rm -rf " ++ path)

unfoldable pub size_command : Bytes → Bytes
size_command path =
    snprintf max_path_len (codes "du -sb " ++ (path ++ codes " 2>/dev/null | cut -f1"))

unfoldable pub diff_command : Bytes → Bytes → Bytes → Bytes
diff_command lower upper diff_path = snprintf (max_path_len * 3) (
    codes "rsync -a --delete --link-dest="
    ++ (lower ++ (codes "/ " ++ (upper ++ (codes "/ " ++ (diff_path ++ codes "/"))))))

unfoldable pub export_command : Bytes → Bytes → Bytes
export_command layer_path output_tar =
    snprintf (max_path_len * 2)
      (codes "tar -czf " ++ (output_tar ++ (codes " -C " ++ (layer_path ++ codes " ."))))

unfoldable pub import_command : Bytes → Bytes → Bytes
import_command input_tar layer_path =
    snprintf (max_path_len * 2) (codes "tar -xzf " ++ (input_tar ++ (codes " -C " ++ layer_path)))

-- ent->d_name[0] == '.'
abbrev pub is_hidden : Bytes → Bool
is_hidden [] = false
is_hidden (c ∷ cs) = c == b'.'

-- `mkdir(path, mode) < 0 && errno != EEXIST`
abbrev pub is_refused : Reply → Bool
is_refused r = is_failure r && not (has_errno eexist_errno r)

module _ (H : Host) where
  -- The loop over the path, with the part that lies before `p`; behind it the last mkdir.
  unfoldable pub mkdir_walk : ℕ → Bytes → Bytes → M Code
  mkdir_walk mode before [] = do
    made ← call H (mkdir before mode)
    pure (if is_refused made then esyscall else ok)
  mkdir_walk mode before (c ∷ cs) =
      let next = mkdir_walk mode (before ++ c ∷ []) cs in
      if c == b'/'
      then (do made ← call H (mkdir before mode); if is_refused made then pure esyscall else next)
      else next

  -- The loop starts at the second byte. An empty path, at which the source reads in front of its
  -- buffer, is no path of a caller.
  unfoldable pub mkdir_from : ℕ → Bytes → M Code
  mkdir_from mode [] = mkdir_walk mode [] []
  mkdir_from mode (c ∷ cs) = mkdir_walk mode (c ∷ []) cs

  unfoldable pub mkdir_recursive : Bytes → ℕ → M Code
  mkdir_recursive path mode = mkdir_from mode (strip_slash (snprintf max_path_len path))

  unfoldable pub storage_init : RuntimeCtx → M Code
  storage_init ctx = do
    mkdir_recursive (join_path max_path_len ctx.image_dir (codes "overlay")) 0o755
    mkdir_recursive (join_path max_path_len ctx.image_dir (codes "layers")) 0o755
    mkdir_recursive (join_path max_path_len ctx.image_dir (codes "images")) 0o755
    pure ok

  -- The code, and the text in the caller's buffer for the path.
  unfoldable pub storage_create_layer : RuntimeCtx → Bytes → Bytes → ℕ → M (Code × Bytes)
  storage_create_layer ctx source_dir layer_id path_len = do
    let layer_path = layer_path_of path_len ctx layer_id
    made ← mkdir_recursive layer_path 0o755
    if not (is_ok made)
        then pure (error, layer_path)
        else do call H (system (copy_command source_dir layer_path)); pure (ok, layer_path)

  -- The code, and the text in the caller's buffer for the mount point.
  unfoldable pub storage_mount_overlay :
      RuntimeCtx → ContainerImage → Bytes → Bytes → ℕ → M (Code × Bytes)
  storage_mount_overlay ctx image container_id mount_point mp_len = do
    let upperdir = overlay_path ctx container_id (codes "/upper")
    let workdir = overlay_path ctx container_id (codes "/work")
    let merged = overlay_path ctx container_id (codes "/merged")
    mkdir_recursive upperdir 0o755
    mkdir_recursive workdir 0o755
    mkdir_recursive merged 0o755
    mounted ← call H (
        mount (some (codes "overlay")) merged (some (codes "overlay")) 0
          (some (overlay_options (lowerdir_of image.layers) upperdir workdir)))
    pure (if is_failure mounted then (esyscall, mount_point) else (ok, strncpy mp_len merged))

  unfoldable pub storage_unmount_overlay : Bytes → M Code
  storage_unmount_overlay mount_point = do
    gone ← call H (umount2 mount_point mnt_detach)
    pure (
        if is_failure gone && (not (has_errno einval_errno gone) && not (has_errno enoent gone))
        then esyscall
        else ok)

  unfoldable pub storage_remove_overlay : RuntimeCtx → Bytes → M Code
  storage_remove_overlay ctx container_id = do
    storage_unmount_overlay (overlay_path ctx container_id (codes "/merged"))
    call H (system (remove_command (overlay_path ctx container_id [])))
    pure ok

  unfoldable pub get_directory_size : Bytes → M ℕ
  get_directory_size path = do
    opened ← call H (popen (size_command path))
    if is_failure opened then pure 0 else do
      scanned ← call H (fscanf_size (result opened))
      call H (pclose (result opened))
      pure (result scanned)

  unfoldable pub storage_create_diff_layer :
      RuntimeCtx → Bytes → Bytes → Bytes → ℕ → M (Code × Bytes)
  storage_create_diff_layer ctx lower_layer upper_layer layer_id path_len = do
    let diff_path = layer_path_of path_len ctx layer_id
    mkdir_recursive diff_path 0o755
    status ← call H (system (diff_command lower_layer upper_layer diff_path))
    pure (if is_zero status then ok else error, diff_path)

  unfoldable pub storage_export_layer : Bytes → Bytes → M Code
  storage_export_layer layer_path output_tar = do
    status ← call H (system (export_command layer_path output_tar))
    pure (if is_zero status then ok else error)

  unfoldable pub storage_import_layer : RuntimeCtx → Bytes → Bytes → ℕ → M (Code × Bytes)
  storage_import_layer ctx input_tar layer_id path_len = do
    let layer_path = layer_path_of path_len ctx layer_id
    mkdir_recursive layer_path 0o755
    status ← call H (system (import_command input_tar layer_path))
    pure (if is_zero status then ok else error, layer_path)

  unfoldable pub storage_commit_container : RuntimeCtx → Bytes → Bytes → M Code
  storage_commit_container ctx container_id layer_id = do
    let layer_path = layer_path_of max_path_len ctx layer_id
    mkdir_recursive layer_path 0o755
    call H (system (copy_command (overlay_path ctx container_id (codes "/upper")) layer_path))
    pure ok

  -- The loop over the entries of an open directory, with the count and the size so far. The fuel
  -- bounds the number of calls of readdir. There are fewer than 2 ^ 31 entries, since the count is
  -- an int.
  unfoldable pub count_layers : ℕ → ℕ → Bytes → ℕ → ℕ → M (ℕ × ℕ)
  count_layers zero dir path layers total = pure (layers, total)
  count_layers (suc fuel) dir path layers total = do
    name ← delivered H (readdir dir)
    entry ← call H (readdir dir)
    elim (is_failure entry) [
      | true ↦ pure (layers, total)
      | false ↦ elim (is_hidden name) [
        | true ↦ count_layers fuel dir path layers total
        | false ↦ (do
          size ← get_directory_size (join_path max_path_len path name)
          count_layers fuel dir path (layers + 1) ((total + size) % 2 ^ 64))
      ]
    ]

-- The print of a byte count in megabytes, by `%.2f` of a double division.
module _ (H : Host) (print_megabytes : ℕ → Bytes) where
  unfoldable pub report_stats : ℕ → ℕ × ℕ → Report
  report_stats buffer_size (layers, total) =
      append buffer_size (codes "Total Size: " ++ (print_megabytes total ++ codes " MB\n"))
        (append buffer_size (codes "Layers: " ++ (decimal layers ++ codes "\n")) empty)

  unfoldable pub storage_get_stats : ℕ → RuntimeCtx → ℕ → M (Code × Report)
  storage_get_stats fuel ctx buffer_size = do
    let path = join_path max_path_len ctx.image_dir (codes "layers")
    dir ← call H (opendir path)
    if is_failure dir then pure (ok, report_stats buffer_size (0, 0)) else do
      counted ← count_layers H fuel (result dir) path 0 0
      call H (closedir (result dir))
      pure (ok, report_stats buffer_size counted)
