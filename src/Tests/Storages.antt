-- ===== src/Tests/Storages.antt =====
-- The theorems on the storage at concrete inputs.
use cruntm.Base.{
  ◌⊎◌, Option, none, List, get_elem?, ◌%◌, ◌^◌, ◌<◌, ◌≡◌, refl, true, false, inr, some, [], ◌∷◌,
  ◌++◌, arith, take, length, All, backwards, if◌then◌else◌,
}
use cruntm.Text.{Bytes, codes, decimal, snprintf, strncpy}
use cruntm.Text.Laws.{join}
use cruntm.Types.{esyscall, max_path_len, ImageLayer, ContainerImage, ok, error, is_ok}
use cruntm.Storage.Layers.{commit-create_layer}
use cruntm.Storage.Counting.{
  reads_of, Lists, visible, Measures, bytes_of, storage_get_stats-visible,
}
use cruntm.Host.{
  Host, Trace, Call, opendir, readdir, fscanf_size, Reply, value, failed, mount, system,
}
use cruntm.Host.Mounts.{mounted, calls}
use cruntm.Storage.{
  layer_path_of, copy_command, storage_create_layer, join_path, report_stats, storage_get_stats,
  strip_slash, overlay_path, overlay_options, diff_paths, lowerdir_of, mkdir_recursive,
  storage_mount_overlay, storage_commit_container, storage_remove_overlay,
}
use cruntm.Storage.Directories.{RefusedLast, mkdir_recursive-present}
use cruntm.Storage.Lower.{lowerdir_of-join}
use cruntm.Storage.Unmount.{places_of, Unmounts, mount-remove_overlay}
use cruntm.Storage.Overlay.{storage_mount_overlay-mounted}
use cruntm.Main.Program.{default_ctx}
use cruntm.Tests.Hosts.{accept, accepting, present, accepting-IsFileSystem}

abbrev base : ImageLayer
base = record { id = codes "base"; diff_path = codes "/l/base"; size = 0 }

abbrev app : ImageLayer
app = record { id = codes "app"; diff_path = codes "/l/app"; size = 0 }

abbrev image : ContainerImage
image = record {
  id = codes "image";
  name = codes "demo";
  tag = codes "latest";
  layers = base ∷ app ∷ [];
  rootfs_path = [];
  metadata_path = [];
}

stripped : strip_slash (snprintf max_path_len (codes "/a/b/")) ≡ codes "/a" ++ b'/' ∷ codes "b"
unfolding strip_slash snprintf codes take
stripped = refl

not_empty : 0 < length (codes "/a")
unfolding codes
not_empty = omega arith

mkdir_recursive-present_example :
    let (code, t') = mkdir_recursive accepting (codes "/a/b/") 0o755 [] in
    ((code ≡ ok) × (present t' (codes "/a") ≡ true)) ⊎ ((code ≡ esyscall) × RefusedLast 0o755 t')
mkdir_recursive-present_example =
    mkdir_recursive-present accepting present accepting-IsFileSystem 0o755 (codes "/a/b/")
      (codes "/a") [] (inr (codes "b", not_empty, stripped))

layers_named : All (λ p. 0 < length p) (diff_paths (base ∷ app ∷ []))
unfolding codes
layers_named = ground arith

layers_short : length (join b':' (backwards (diff_paths (base ∷ app ∷ [])))) < 16384
unfolding join backwards codes
layers_short = omega arith

lowerdir_of-join_example :
    lowerdir_of (base ∷ app ∷ []) ≡ join b':' (backwards (diff_paths (base ∷ app ∷ [])))
lowerdir_of-join_example = lowerdir_of-join (base ∷ app ∷ []) layers_named layers_short

storage_mount_overlay-mounted_example :
    let (code, place) =
      (storage_mount_overlay accepting default_ctx image (codes "a1") [] 4096 []).0 in
    let merged = overlay_path default_ctx (codes "a1") (codes "/merged") in
    let options =
      overlay_options
        (lowerdir_of image.layers)
        (overlay_path default_ctx (codes "a1") (codes "/upper"))
        (overlay_path default_ctx (codes "a1") (codes "/work")) in
    (mounted (storage_mount_overlay accepting default_ctx image (codes "a1") [] 4096 []).1 ≡ (
      if is_ok code
      then mount (some (codes "overlay")) merged (some (codes "overlay")) 0 (some options)
        ∷ mounted []
      else mounted []))
    × (place ≡ (if is_ok code then strncpy 4096 merged else []))
storage_mount_overlay-mounted_example =
    storage_mount_overlay-mounted accepting default_ctx image (codes "a1") [] 4096 []

abbrev layer_names : List Bytes
layer_names = codes "." ∷ codes "base" ∷ codes "app" ∷ []

abbrev entry_reply : Option Bytes → Reply
entry_reply none = failed 0
entry_reply (some name) = value 1

abbrev entry_name : Option Bytes → Bytes
entry_name none = []
entry_name (some name) = name

unfoldable list_reply : Trace → Call → Reply
list_reply t (readdir d) = entry_reply (get_elem? layer_names (reads_of d t))
list_reply t (opendir path) = value 7
list_reply t (fscanf_size f) = value 4096
list_reply t _ = value 0

unfoldable list_input : Trace → Call → Bytes
list_input t (readdir d) = entry_name (get_elem? layer_names (reads_of d t))
list_input t _ = []

-- A host whose directories hold two layers.
abbrev listing : Host
listing = record { answer = list_reply; input = list_input }

listing-Lists : Lists listing 7 layer_names
unfolding list_reply list_input
listing-Lists = record { entries = λ t name h. rw h (refl, refl); ends = λ t h. rw h refl }

listing-Measures : Measures listing (λ p. 4096)
unfolding list_reply
listing-Measures = record { starts = λ t p. refl; reads = λ t p. refl }

opens :
    listing.answer [] (opendir (join_path max_path_len default_ctx.image_dir (codes "layers")))
    ≡ value 7
unfolding list_reply
opens = refl

not_read : reads_of 7 [] ≡ 0
unfolding reads_of
not_read = refl

storage_get_stats-visible_example : (storage_get_stats listing decimal 4 default_ctx 4096 []).0 ≡ (
  ok,
  report_stats listing decimal 4096 (
    visible layer_names,
    bytes_of (λ p. 4096) (join_path max_path_len default_ctx.image_dir (codes "layers")) layer_names
        % 2 ^ 64,
  ),
)
storage_get_stats-visible_example =
    storage_get_stats-visible listing decimal (λ p. 4096) listing-Measures 7 layer_names
      listing-Lists 4 default_ctx 4096 [] opens not_read (omega arith)

commit-create_layer_example :
    let upper = overlay_path default_ctx (codes "a1") (codes "/upper") in
    let path = layer_path_of max_path_len default_ctx (codes "base") in
    let (created, u) =
      storage_create_layer accepting default_ctx upper (codes "base") max_path_len [] in
    let (code, t') =
      storage_commit_container accepting default_ctx (codes "a1") (codes "base") [] in
    let good = is_ok (mkdir_recursive accepting path 0o755 []).0 in
    ((good ≡ true) × (created ≡ (ok, path)) × (code ≡ ok) × (t' ≡ u))
    ⊎ ((good ≡ false)
        × (created ≡ (error, path))
        × (code ≡ ok)
        × (calls t' ≡ system (copy_command upper path) ∷ calls u))
commit-create_layer_example =
    commit-create_layer accepting default_ctx (codes "a1") (codes "base") []

accepting-Unmounts : Unmounts accepting
unfolding accept
accepting-Unmounts = record { detaches = λ t p h. refl }

overlay_mounted :
    is_ok (storage_mount_overlay accepting default_ctx image (codes "a1") [] 4096 []).0.0 ≡ true
unfolding storage_mount_overlay accept
overlay_mounted = refl

mount-remove_overlay_example :
    places_of
      (storage_remove_overlay accepting default_ctx
        (codes "a1")
        (storage_mount_overlay accepting default_ctx image (codes "a1") [] 4096 []).1).1
    ≡ places_of []
mount-remove_overlay_example =
    mount-remove_overlay accepting accepting-Unmounts default_ctx image (codes "a1") [] 4096 []
      overlay_mounted
