-- ===== src/Cgroup.antt =====
-- src/cgroup/cgroup.c: the control group of a container, driven through the files of cgroup v2.
-- The messages to the log are left out.
pub mod Descriptors
pub mod Create
pub mod Weight
pub mod Limits
pub mod Stats
pub mod Control
use cruntm.Base.{
  ℕ, ◌+◌, ◌-◌, ◌*◌, Bool, true, false, not, ◌&&◌, List, [], ◌∷◌, ◌++◌, length, take, ltb, ◌==◌,
  if◌then◌else◌,
}
use cruntm.Base.Int.{ℤ, pos, negsuc, ltb_ℤ, quotient, scale, to_int64}
use cruntm.Text.{Bytes, codes, snprintf, print_int}
use cruntm.Types.{max_path_len, ResourceLimits, Code, ok, error, esyscall, is_ok}
use cruntm.Host.{
  Host, M, pure, ◌>>=◌, ◌>>◌, call, delivered, open_file, read_only, create_truncate, read, write,
  close, stat, mkdir, rmdir, usleep, Reply, value, failed, is_failure, result, has_errno, enoent,
  eexist_errno,
}
use cruntm.Buffer.{Report, empty, append}

abbrev pub cgroup_root : Bytes
cgroup_root = codes "/sys/fs/cgroup"

abbrev pub cgroup_container_prefix : Bytes
cgroup_container_prefix = codes "cruntime"

-- A file of the group: snprintf(buffer, MAX_PATH_LEN, "%s/<name>", cgroup_path).
unfoldable pub control_path : Bytes → Bytes → Bytes
control_path cgroup_path name = snprintf max_path_len (cgroup_path ++ b'/' ∷ name)

-- The test `write(fd, value, len) == len`.
abbrev pub is_complete : Bytes → Reply → Bool
is_complete text (value n) = n == length text
is_complete text (failed e) = false

-- Convert shares (2-262144) to weight (1-10000).
unfoldable pub cpu_weight : ℤ → ℤ
unfolding quotient scale to_int64
cpu_weight shares =
    let weight = quotient (to_int64 (scale shares 10000)) 262144 in
    let raised = if ltb_ℤ weight (pos 1) then pos 1 else weight in
    if ltb_ℤ (pos 10000) raised then pos 10000 else raised

module _ (H : Host) where
  unfoldable pub cgroup_write_file : Bytes → Bytes → M Code
  cgroup_write_file path text = do
    opened ← call H (open_file path create_truncate 0o644)
    if is_failure opened then pure esyscall else do
      wrote ← call H (write (result opened) text)
      call H (close (result opened))
      pure (if is_complete text wrote then ok else esyscall)

  -- The code, and the text that the buffer of `size` bytes holds.
  unfoldable pub cgroup_read_file : Bytes → ℕ → Bytes → M (Code × Bytes)
  cgroup_read_file path size buffer = do
    opened ← call H (open_file path read_only 0)
    if is_failure opened then pure (esyscall, buffer) else do
      data_read ← delivered H (read (result opened) (size - 1))
      got ← call H (read (result opened) (size - 1))
      call H (close (result opened))
      pure (if is_failure got then (esyscall, buffer) else (ok, take (result got) data_read))

  unfoldable pub is_cgroup_v2 : M Bool
  is_cgroup_v2 = do
    found ← call H (stat (codes "/sys/fs/cgroup/cgroup.controllers"))
    pure (not (is_failure found))

  -- The code, and what the caller's buffer for the path holds.
  unfoldable pub cgroup_create : Bytes → ℕ → Bytes → M (Code × Bytes)
  cgroup_create container_id path_len buffer = do
    v2 ← is_cgroup_v2
    if not v2 then pure (error, buffer) else do
      let cgroup_path =
          snprintf path_len (cgroup_root ++ b'/' ∷ (cgroup_container_prefix ++ b'/' ∷ container_id))
      let parent_path = snprintf max_path_len (cgroup_root ++ b'/' ∷ cgroup_container_prefix)
      call H (mkdir parent_path 0o755)
      made ← call H (mkdir cgroup_path 0o755)
      if is_failure made && not (has_errno eexist_errno made)
          then pure (esyscall, cgroup_path)
          else do
            let subtree_path =
                snprintf max_path_len (parent_path ++ codes "/cgroup.subtree_control")
            cgroup_write_file subtree_path (codes "+cpu +memory +io +pids")
            pure (ok, cgroup_path)

  -- One section of cgroup_apply_limits: under its guard, the text goes to the file of that name.
  unfoldable pub apply_limit : Bool → Bytes → Bytes → Bytes → M (Unit {0})
  apply_limit guard cgroup_path name text =
      if guard
      then (do cgroup_write_file (control_path cgroup_path name) (snprintf 256 text); pure tt)
      else pure tt

  unfoldable pub cgroup_apply_limits : Bytes → ResourceLimits → M Code
  cgroup_apply_limits p l = do
    apply_limit (ltb_ℤ (pos 0) l.memory_limit) p (codes "memory.max") (print_int l.memory_limit)
    apply_limit (ltb_ℤ (pos 0) l.memory_swap) p (codes "memory.swap.max") (print_int l.memory_swap)
    apply_limit (ltb_ℤ (pos 0) l.cpu_shares) p (codes "cpu.weight")
        (print_int (cpu_weight l.cpu_shares))
    apply_limit (ltb_ℤ (pos 0) l.cpu_quota && ltb_ℤ (pos 0) l.cpu_period) p (codes "cpu.max")
        (print_int l.cpu_quota ++ b' ' ∷ print_int l.cpu_period)
    apply_limit (ltb_ℤ (pos 0) l.pids_limit) p (codes "pids.max") (print_int l.pids_limit)
    apply_limit (ltb_ℤ (pos 0) l.blkio_weight) p (codes "io.weight")
        (codes "default " ++ print_int l.blkio_weight)
    pure ok

  -- cgroup_add_process, cgroup_freeze, cgroup_unfreeze and cgroup_kill_all each write one text to
  -- one file, and pass a failure on.
  unfoldable pub write_control : Bytes → Bytes → Bytes → M Code
  write_control cgroup_path name text = do
    code ← cgroup_write_file (control_path cgroup_path name) text
    pure (if is_ok code then ok else esyscall)

  unfoldable pub cgroup_add_process : Bytes → ℤ → M Code
  cgroup_add_process cgroup_path pid =
      write_control cgroup_path (codes "cgroup.procs") (snprintf 32 (print_int pid))

  -- One section of cgroup_get_stats. `prefix` and `suffix` are the format around `%s`.
  unfoldable pub report_file : ℕ → Bytes → Bytes → Bytes → Bytes → Report → M Report
  report_file buffer_size cgroup_path name prefix suffix report = do
    got ← cgroup_read_file (control_path cgroup_path name) 256 []
    pure (if is_ok got.0 then append buffer_size (prefix ++ (got.1 ++ suffix)) report else report)

  unfoldable pub cgroup_get_stats : Bytes → ℕ → M (Code × Report)
  cgroup_get_stats p n = do
    r ← report_file n p (codes "memory.current") (codes "Memory: ") (codes " bytes\n") empty
    r ← report_file n p (codes "memory.max") (codes "Memory Limit: ") (codes "\n") r
    r ← report_file n p (codes "cpu.stat") (codes "CPU Stats: ") [] r
    r ← report_file n p (codes "pids.current") (codes "PIDs: ") (codes "\n") r
    pure (ok, r)

  unfoldable pub cgroup_freeze : Bytes → M Code
  cgroup_freeze cgroup_path = write_control cgroup_path (codes "cgroup.freeze") (codes "1")

  unfoldable pub cgroup_unfreeze : Bytes → M Code
  cgroup_unfreeze cgroup_path = write_control cgroup_path (codes "cgroup.freeze") (codes "0")

  unfoldable pub cgroup_kill_all : Bytes → M Code
  cgroup_kill_all cgroup_path = write_control cgroup_path (codes "cgroup.kill") (codes "1")

  unfoldable pub cgroup_destroy : Bytes → M Code
  cgroup_destroy cgroup_path = do
    cgroup_kill_all cgroup_path
    call H (usleep 100000)
    removed ← call H (rmdir cgroup_path)
    pure (if is_failure removed && not (has_errno enoent removed) then esyscall else ok)
