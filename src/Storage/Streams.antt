-- ===== src/Storage/Streams.antt =====
-- The functions on streams in src/utils/utils.c and src/storage/storage.c close what they open.
use cruntm.Base.{ℕ, zero, suc, ◌+◌, refl, ◌∙◌, inl, inr, arith, Bool-cases}
use cruntm.Text.{Bytes}
use cruntm.Types.{max_path_len, RuntimeCtx}
use cruntm.Host.{Host, call, readdir, is_failure}
use cruntm.Host.Streams.{streams, KeepsStreams}
use cruntm.Utils.{random_text, generate_id, read_file, write_file}
use cruntm.Storage.{is_hidden, join_path, get_directory_size, count_layers, storage_get_stats}

module _ (H : Host) where
  random_text-KeepsStreams : (n : ℕ) → KeepsStreams (random_text H n)
  unfolding random_text streams
  random_text-KeepsStreams zero t = refl
  random_text-KeepsStreams (suc n) t = random_text-KeepsStreams n _

  generate_id-KeepsStreams : (n : ℕ) → KeepsStreams (generate_id H n)
  unfolding generate_id streams
  generate_id-KeepsStreams n t = grind (arith, random_text-KeepsStreams)

  read_file-KeepsStreams : (path : Bytes) → KeepsStreams (read_file H path)
  unfolding read_file streams
  read_file-KeepsStreams path t = ground arith

  write_file-KeepsStreams : (path content : Bytes) → KeepsStreams (write_file H path content)
  unfolding write_file streams
  write_file-KeepsStreams path content t = ground arith

  get_directory_size-KeepsStreams : (path : Bytes) → KeepsStreams (get_directory_size H path)
  unfolding get_directory_size streams
  get_directory_size-KeepsStreams path t = ground arith

  count_layers-KeepsStreams :
      (fuel dir : ℕ) (path : Bytes) (layers total : ℕ)
      → KeepsStreams (count_layers H fuel dir path layers total)
  unfolding count_layers streams
  count_layers-KeepsStreams zero dir path layers total t = refl
  count_layers-KeepsStreams (suc fuel) dir path layers total t =
      let u = (call H (readdir dir) t).1 in
      let name = H.input t (readdir dir) in
      let v = get_directory_size H (join_path max_path_len path name) u in
      elim (Bool-cases (is_failure (H.answer t (readdir dir)))) [
        | inl e ↦ rw e refl
        | inr e ↦ elim (Bool-cases (is_hidden name)) [
          | inl h ↦ rw (e, h) (count_layers-KeepsStreams fuel dir path layers total u)
          | inr h ↦
              rw (e, h)
                (count_layers-KeepsStreams fuel dir path (layers + 1) _ _
                  ∙ get_directory_size-KeepsStreams (join_path max_path_len path name) u)
        ]
      ]

  -- generate_id, read_file, write_file, get_directory_size and storage_get_stats leave the open streams
  -- as they were, whatever the host answers: when a stream cannot be opened, when there is no memory for the text, and for any number of entries of the
  -- directory of layers.
  pub streams-KeepsStreams :
      (n fuel : ℕ) (path content : Bytes) (ctx : RuntimeCtx) (print_megabytes : ℕ → Bytes)
      → KeepsStreams (generate_id H n)
        × KeepsStreams (read_file H path)
        × KeepsStreams (write_file H path content)
        × KeepsStreams (get_directory_size H path)
        × KeepsStreams (storage_get_stats H print_megabytes fuel ctx n)
  unfolding storage_get_stats streams
  streams-KeepsStreams n fuel path content ctx print_megabytes = (
    generate_id-KeepsStreams n,
    read_file-KeepsStreams path,
    write_file-KeepsStreams path content,
    get_directory_size-KeepsStreams path,
    λ t. grind (arith, count_layers-KeepsStreams),
  )
