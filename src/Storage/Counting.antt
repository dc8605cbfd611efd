-- ===== src/Storage/Counting.antt =====
-- The loop over the entries of the directory of layers.
use cruntm.Base.{
  ℕ, zero, suc, ◌+◌, ◌%◌, ◌^◌, ◌<◌, ◌≡◌, ap, ◌∙◌, inl, inr, true, false, none, some, List, [], ◌∷◌,
  arith, length, ◌==◌, Bool-cases, if◌then◌else◌,
}
use cruntm.Base.{get_elem?}
use cruntm.Text.{Bytes, codes}
use cruntm.Types.{max_path_len, RuntimeCtx, ok}
use cruntm.Host.{
  Host, Trace, Call, call, opendir, readdir, popen, fscanf_size, value, result, is_failure,
}
use cruntm.Storage.{
  is_hidden, get_directory_size, size_command, join_path, count_layers, report_stats,
  storage_get_stats,
}

abbrev step_of : ℕ → Call → ℕ → ℕ
step_of dir (readdir d) done = if d == dir then suc done else done
step_of dir _ done = done

-- How often the directory was read.
unfoldable pub reads_of : ℕ → Trace → ℕ
reads_of dir [] = 0
reads_of dir (e ∷ t) = step_of dir e.call (reads_of dir t)

-- The documented behaviour of readdir: its calls give the names of the directory one by one,
-- whatever happens between them, and then NULL.
pub record Lists (H : Host) (dir : ℕ) (names : List Bytes) : Type 0 where
  pub entries :
      (t : Trace) (name : Bytes)
      → get_elem? names (reads_of dir t) ≡ some name
      → (is_failure (H.answer t (readdir dir)) ≡ false) × (H.input t (readdir dir) ≡ name)
  pub ends :
      (t : Trace)
      → get_elem? names (reads_of dir t) ≡ none
      → is_failure (H.answer t (readdir dir)) ≡ true

-- The names that do not begin with a dot.
unfoldable pub visible : List Bytes → ℕ
visible [] = 0
visible (name ∷ names) = if is_hidden name then visible names else suc (visible names)

pair-eq : {a b c d : ℕ} → a ≡ b → c ≡ d → ◌≡◌ {A = ℕ × ℕ} (a, c) (b, d)
pair-eq {b = b} {c = c} h k = ap (λ x. (x, c)) h ∙ ap (λ y. (b, y)) k

-- The documented behaviour of `du -sb`: the shell can be started, and the number that is read from
-- it is the size of the directory.
pub record Measures (H : Host) (sizes : Bytes → ℕ) : Type 0 where
  pub starts : (t : Trace) (p : Bytes) → is_failure (H.answer t (popen (size_command p))) ≡ false
  pub reads :
      (t : Trace) (p : Bytes)
      → let (r, u) = call H (popen (size_command p)) t in
        result (H.answer u (fscanf_size (result r))) ≡ sizes p

-- The sizes of the visible entries of a directory, added.
unfoldable pub bytes_of : (Bytes → ℕ) → Bytes → List Bytes → ℕ
bytes_of sizes path [] = 0
bytes_of sizes path (name ∷ names) =
    let rest = bytes_of sizes path names in
    if is_hidden name then rest else sizes (join_path max_path_len path name) + rest

get_directory_size_lem :
    (H : Host) (sizes : Bytes → ℕ)
    → Measures H sizes
    → (p : Bytes) (t : Trace) → (get_directory_size H p t).0 ≡ sizes p
unfolding get_directory_size
get_directory_size_lem H sizes measures p t = rw (measures.starts t p) (measures.reads t p)

module _ (H : Host) (sizes : Bytes → ℕ) (measures : Measures H sizes) (dir : ℕ) (names : List Bytes)
    (lists : Lists H dir names) (path : Bytes) where
  get_directory_size-reads_of :
      (p : Bytes) (t : Trace) → reads_of dir (get_directory_size H p t).1 ≡ reads_of dir t
  unfolding get_directory_size reads_of
  get_directory_size-reads_of p t = ground arith

  readdir-reads_of : (t : Trace) → reads_of dir (call H (readdir dir) t).1 ≡ suc (reads_of dir t)
  unfolding reads_of
  readdir-reads_of t = ground arith

  -- With the names `rest` to come, at the place that the trace tells.
  count_layers_from :
      (fuel : ℕ) (rest : List Bytes) (layers total : ℕ) (t : Trace)
      → ((i : ℕ) → get_elem? names (reads_of dir t + i) ≡ get_elem? rest i)
      → length rest < fuel
      → total < 2 ^ 64
      → (count_layers H fuel dir path layers total t).0
        ≡ (layers + visible rest, (total + bytes_of sizes path rest) % 2 ^ 64)
  unfolding visible get_elem? count_layers bytes_of
  count_layers_from zero rest layers total t at enough small = absurd (omega arith)
  count_layers_from (suc fuel) [] layers total t at enough small =
      let over = lists.ends t (ap (get_elem? names) (omega arith) ∙ at 0) in
      rw over (pair-eq (omega arith) (omega arith))
  count_layers_from (suc fuel) (name ∷ rest) layers total t at enough small =
      let (there, same) = lists.entries t name (ap (get_elem? names) (omega arith) ∙ at 0) in
      let u = (call H (readdir dir) t).1 in
      let entry_path = join_path max_path_len path (H.input t (readdir dir)) in
      let v = (get_directory_size H entry_path u).1 in
      let later : (i : ℕ) → get_elem? names (reads_of dir u + i) ≡ get_elem? rest i =
        λ i. ap (get_elem? names) (omega (arith, readdir-reads_of t)) ∙ at (suc i) in
      rw (there, same)
        (elim (Bool-cases (is_hidden name)) [
          | inl h ↦ rw h (count_layers_from fuel rest layers total u later (omega arith) small)
          | inr h ↦
              let size = get_directory_size-reads_of entry_path u in
              let measured =
                get_directory_size_lem H sizes measures entry_path u
                ∙ ap (λ n. sizes (join_path max_path_len path n)) same in
              rw h (
                count_layers_from fuel rest (layers + 1) _ v
                  (λ i. ap (get_elem? names) (omega (arith, size)) ∙ later i) (omega arith)
                  (omega arith)
                ∙ pair-eq (omega arith) (omega (arith, measured)))
        ])

  -- The loop comes to the end of the directory, and has counted the names that do not begin with a
  -- dot and added their sizes.
  count_layers_lem :
      (fuel : ℕ) (t : Trace)
      → reads_of dir t ≡ 0
      → length names < fuel
      → (count_layers H fuel dir path 0 0 t).0 ≡ (visible names, bytes_of sizes path names % 2 ^ 64)
  count_layers_lem fuel t start enough =
      count_layers_from fuel names 0 0 t (λ i. ap (get_elem? names) (omega arith)) enough
        (omega arith)
      ∙ pair-eq (omega arith) (omega arith)

-- On an open directory whose names readdir gives one by one, with more fuel than names, and where
-- `du` measures each directory, the loop comes to its end: the report is that of the number of the
-- names that do not begin with a dot and of their sizes, added modulo 2 ^ 64, and the code is CR_OK.
pub storage_get_stats-visible :
    (H : Host) (print_megabytes : ℕ → Bytes) (sizes : Bytes → ℕ)
    → Measures H sizes
    → (dir : ℕ) (names : List Bytes) → Lists H dir names
    → (fuel : ℕ) (ctx : RuntimeCtx) (buffer_size : ℕ) (t : Trace)
    → H.answer t (opendir (join_path max_path_len ctx.image_dir (codes "layers"))) ≡ value dir
    → reads_of dir t ≡ 0
    → length names < fuel
    → (storage_get_stats H print_megabytes fuel ctx buffer_size t).0 ≡ (
      ok,
      report_stats H print_megabytes buffer_size (
        visible names,
        bytes_of sizes (join_path max_path_len ctx.image_dir (codes "layers")) names % 2 ^ 64,
      ),
    )
unfolding storage_get_stats reads_of
storage_get_stats-visible H print_megabytes sizes measures dir names lists fuel ctx buffer_size t
      opened start enough =
    let path = join_path max_path_len ctx.image_dir (codes "layers") in
    let u : Trace = record { call = opendir path; reply = value dir } ∷ t in
    rw opened (
      ap (λ (k : ℕ × ℕ). (ok, report_stats H print_megabytes buffer_size k))
        (count_layers_lem H sizes measures dir names lists path fuel u start enough))
