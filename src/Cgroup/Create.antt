-- ===== src/Cgroup/Create.antt =====
-- The creation of a control group.
use cruntm.Base.{ℕ, ◌≡◌, refl, ◌⊎◌, inl, inr, Bool, true, false, ◌∷◌, ◌++◌, Bool-cases}
use cruntm.Text.{Bytes, codes, snprintf}
use cruntm.Types.{max_path_len, ok, error, esyscall}
use cruntm.Host.{
  Host, Trace, Reply, value, failed, Reply-cases, open_file, create_truncate, write, close, call,
  stat, mkdir, is_failure,
}
use cruntm.Host.Mounts.{calls}
use cruntm.Storage.{is_refused}
use cruntm.Storage.Directories.{IsFileSystem}
use cruntm.Cgroup.{
  cgroup_root, cgroup_container_prefix, is_cgroup_v2, cgroup_write_file, cgroup_create,
}

-- The file that tells cgroup v2.
abbrev pub controllers_file : Bytes
controllers_file = codes "/sys/fs/cgroup/cgroup.controllers"

abbrev pub parent_directory : Bytes
parent_directory = snprintf max_path_len (cgroup_root ++ b'/' ∷ cgroup_container_prefix)

abbrev pub group_directory : ℕ → Bytes → Bytes
group_directory n id = snprintf n (cgroup_root ++ b'/' ∷ (cgroup_container_prefix ++ b'/' ∷ id))

-- Behind the attempt to make the parent directory.
abbrev pub with_parent : Host → Trace → Trace
with_parent H t = (call H (mkdir parent_directory 0o755) (call H (stat controllers_file) t).1).1

-- The file that switches controllers on below the parent directory.
abbrev pub subtree_file : Bytes
subtree_file = snprintf max_path_len (parent_directory ++ codes "/cgroup.subtree_control")

-- The trace behind an attempt to write a text over a file: the file cannot be opened, or it is
-- opened, the whole text is given to write, and the file is closed, whatever both answer.
abbrev pub Overwrites : Bytes → Bytes → Trace → Trace → Type 0
Overwrites path text u t' =
    ((e : ℕ) × (t' ≡ record { call = open_file path create_truncate 0o644; reply = failed e } ∷ u))
    ⊎ ((fd : ℕ) × (wrote closed : Reply) × (t'
          ≡ record { call = close fd; reply = closed }
            ∷ record { call = write fd text; reply = wrote }
            ∷ record { call = open_file path create_truncate 0o644; reply = value fd }
            ∷ u))

module _ (H : Host) (present : Trace → Bytes → Bool) (fs : IsFileSystem H present) where
  cgroup_write_file-Overwrites :
      (path text : Bytes) (u : Trace) → Overwrites path text u (cgroup_write_file H path text u).1
  unfolding cgroup_write_file
  cgroup_write_file-Overwrites path text u =
      let opening = open_file path create_truncate 0o644 in
      elim (Reply-cases (H.answer u opening)) [
        | inl (fd, e) ↦
            let v = (call H opening u).1 in
            let w = (call H (write fd text) v).1 in
            inr (fd, H.answer v (write fd text), H.answer w (close fd), rw e refl)
        | inr (n, e) ↦ inl (n, rw e refl)
      ]

  -- The three cases of cgroup_create. Without cgroup v2 the code is CR_ERROR, the caller's buffer is
  -- left alone, and nothing is tried. With it, if the group's directory cannot be made the code is
  -- CR_ESYSCALL, and nothing is tried behind that. If it can, the directory is there when the
  -- controllers cpu, memory, io and pids are written to the cgroup.subtree_control of its parent,
  -- which is the last thing done, and the code is CR_OK even where that file cannot be opened or
  -- written. The host's mkdir behaves as documented.
  pub cgroup_create_lem :
      (id buffer : Bytes) (n : ℕ) (t : Trace)
      → let ((code, path), t') = cgroup_create H id n buffer t in
        let directory = group_directory n id in
        let (made, u) = call H (mkdir directory 0o755) (with_parent H t) in
        let missing = is_failure (H.answer t (stat controllers_file)) in
        ((missing ≡ true)
          × (code ≡ error)
          × (path ≡ buffer)
          × (calls t' ≡ stat controllers_file ∷ calls t))
        ⊎ ((missing ≡ false)
            × (is_refused made ≡ true)
            × (code ≡ esyscall)
            × (path ≡ directory)
            × (t' ≡ u))
        ⊎ ((missing ≡ false)
            × (is_refused made ≡ false)
            × (code ≡ ok)
            × (path ≡ directory)
            × (present u directory ≡ true)
            × Overwrites subtree_file (codes "+cpu +memory +io +pids") u t')
  unfolding cgroup_create is_cgroup_v2 calls
  cgroup_create_lem id buffer n t =
      let directory = group_directory n id in
      let v = with_parent H t in
      let u = (call H (mkdir directory 0o755) v).1 in
      let text = codes "+cpu +memory +io +pids" in
      elim (Bool-cases (is_failure (H.answer t (stat controllers_file)))) [
        | inl e ↦ inl (e, rw e refl, rw e refl, rw e refl)
        | inr e ↦ elim (Bool-cases (is_refused (H.answer v (mkdir directory 0o755)))) [
          | inl r ↦ inr (inl (e, r, rw (e, r) refl, rw (e, r) refl, rw (e, r) refl))
          | inr r ↦ inr (
              inr (
                e,
                r,
                rw (e, r) refl,
                rw (e, r) refl,
                fs.makes v directory 0o755 r,
                rw (e, r) (cgroup_write_file-Overwrites subtree_file text u),
              ))
        ]
      ]
