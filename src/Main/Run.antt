-- ===== src/Main/Run.antt =====
-- src/main.c: the command run, behind its options.
use cruntm.Base.{ℕ, ◌+◌, not, some, List, [], ◌∷◌, ◌++◌, length, if◌then◌else◌}
use cruntm.Text.{Bytes, codes, snprintf}
use cruntm.Types.{Code, is_ok, ContainerConfig, Container, RuntimeCtx, max_path_len}
use cruntm.Host.{
  Host, M, pure, ◌>>=◌, ◌>>◌, call, getuid, getgid, waitpid, print_out, print_err, result,
}
use cruntm.Utils.{generate_id, Doubles}
use cruntm.Main.{Parsed, Settings, Outcome, go, usage_error, fault, apply_options, default_settings}

-- The command, its arguments (the command first) and their number.
unfoldable pub with_command : List Bytes → ContainerConfig → ContainerConfig
with_command [] c = record c { command = some (codes "/bin/sh") }
with_command (cmd ∷ rest) c = record c {
  command = some cmd;
  args = some (cmd ∷ rest);
  num_args = length rest + 1;
}

unfoldable pub image_rootfs : RuntimeCtx → Bytes → Bytes
image_rootfs ctx image =
    snprintf max_path_len (ctx.image_dir ++ (codes "/images/" ++ (image ++ codes "/rootfs")))

-- The functions of include/cruntime.h that src/core/runtime.c is to define, which the repository
-- does not hold. A function that changes its container returns the new one.
pub record Runtime : Type 0 where
  pub runtime_init : RuntimeCtx → M (Code × RuntimeCtx)
  pub runtime_cleanup : RuntimeCtx → M Code
  pub container_create : RuntimeCtx → ContainerConfig → M (Code × Container)
  pub container_start : RuntimeCtx → Container → M (Code × Container)
  pub container_delete : RuntimeCtx → Container → M Code

-- What getopt_long finds in the arguments: the options in their order, and the rest.
pub record Arguments : Type 0 where
  pub options : List Parsed
  pub operands : List Bytes

-- `exited` with a status, or the death of the program by a write through NULL.
pub data Ended : Type 0 where
  exited : ℕ → Ended
  crashed : Ended

module _ (H : Host) (R : Runtime) where
  -- Behind the creation of the container.
  unfoldable pub start_container : RuntimeCtx → Settings → Container → M Ended
  start_container ctx s container = do
    call H (print_out (s.config.id ++ codes "\n"))
    started ← R.container_start ctx container
    if not (is_ok started.0)
        then (do
          call H (print_err (codes "Failed to start container\n"))
          R.container_delete ctx started.1
          pure (exited 1))
        else if s.detach
        then pure (exited 0)
        else (do
          call H (waitpid started.1.init_pid)
          if s.auto_remove
              then (do R.container_delete ctx started.1; pure (exited 0))
              else pure (exited 0))

  -- Behind the loop over the options.
  unfoldable pub run_image : RuntimeCtx → List Bytes → Settings → M Ended
  run_image ctx [] s = do call H (print_err (codes "Error: missing image name\n")); pure (exited 1)
  run_image ctx (image ∷ rest) s = do
    let config = with_command rest (record (s.config) { rootfs = image_rootfs ctx image })
    made ← R.container_create ctx config
    if is_ok made.0
        then start_container ctx (record s { config = config }) made.1
        else (do call H (print_err (codes "Failed to create container\n")); pure (exited 1))

  unfoldable pub finish_run : RuntimeCtx → List Bytes → Outcome → M Ended
  finish_run ctx operands (go s) = run_image ctx operands s
  finish_run ctx operands usage_error = pure (exited 1)
  finish_run ctx operands fault = pure crashed

  unfoldable pub cmd_run : Doubles → RuntimeCtx → Arguments → M Ended
  cmd_run D ctx args = do
    id ← generate_id H 65
    uid ← call H getuid
    gid ← call H getgid
    finish_run ctx args.operands
        (apply_options D args.options (default_settings id (result uid) (result gid)))
