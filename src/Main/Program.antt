-- ===== src/Main/Program.antt =====
-- src/main.c: the global options, the command ps and the dispatch of main.
use cruntm.Base.{ℕ, ◌-◌, false, not, List, [], ◌∷◌, ◌++◌, ◌==◌, if◌then◌else◌}
use cruntm.Text.{Bytes, codes, strncpy}
use cruntm.Text.Laws.{equal}
use cruntm.Types.{Code, ok, is_ok, RuntimeCtx, LogLevel, debug, max_path_len}
use cruntm.Log.{initial_log_level, cr_set_log_level}
use cruntm.Host.{Host, M, pure, ◌>>=◌, ◌>>◌, call, geteuid, print_out, print_err, result}
use cruntm.Utils.{Doubles}
use cruntm.Main.{Parsed, letter, long, unknown}
use cruntm.Main.Run.{Runtime, Arguments, Ended, exited, crashed, cmd_run}

-- The lines of print_usage; `prog` is argv[0].
unfoldable pub usage_lines : Bytes → List Bytes
usage_lines prog =
    codes "CRuntime v1.0.0 - Production Container Runtime\n\n"
    ∷ (codes "Usage: " ++ (prog ++ codes " [OPTIONS] COMMAND [ARGS...]\n\n"))
    ∷ codes "Commands:\n"
    ∷ codes "  run        Create and start a container\n"
    ∷ codes "  create     Create a container\n"
    ∷ codes "  start      Start a container\n"
    ∷ codes "  stop       Stop a container\n"
    ∷ codes "  kill       Kill a container\n"
    ∷ codes "  rm         Remove a container\n"
    ∷ codes "  ps         List containers\n"
    ∷ codes "  exec       Execute command in running container\n"
    ∷ codes "  pause      Pause a container\n"
    ∷ codes "  unpause    Resume a paused container\n"
    ∷ codes "  logs       View container logs\n"
    ∷ codes "  stats      Display container statistics\n"
    ∷ codes "\n"
    ∷ codes "Options:\n"
    ∷ codes "  -h, --help              Show this help message\n"
    ∷ codes "  -v, --version           Show version\n"
    ∷ codes "  -d, --runtime-dir DIR   Runtime directory (default: /var/run/cruntime)\n"
    ∷ codes "  --debug                 Enable debug logging\n"
    ∷ []

-- The result of a global option: go on with a context and a level of the log, or leave with a status.
pub data Global : Type 0 where
  proceed : RuntimeCtx → LogLevel → Global
  show_help : ℕ → Global
  show_version : Global

-- The context in front of the loop in main.
unfoldable pub default_ctx : RuntimeCtx
default_ctx = record {
  runtime_dir = codes "/var/run/cruntime";
  state_dir = codes "/var/lib/cruntime/state";
  image_dir = codes "/var/lib/cruntime/images";
  network_dir = codes "/var/run/cruntime/netns";
  use_systemd = false;
}

-- `level` is current_log_level.
unfoldable pub apply_global : Parsed → RuntimeCtx → LogLevel → Global
apply_global (letter opt arg) ctx level =
    if opt == b'h'
    then show_help 0
    else if opt == b'v'
    then show_version
    else if opt == b'd'
    then proceed (record ctx { runtime_dir = strncpy (max_path_len - 1) arg }) level
    else show_help 1
apply_global (long name arg) ctx level =
    proceed ctx (if equal name (codes "debug") then cr_set_log_level debug level else level)
apply_global unknown ctx level = show_help 1

unfoldable pub apply_globals : List Parsed → RuntimeCtx → LogLevel → Global
apply_globals [] ctx level = proceed ctx level
apply_globals (p ∷ ps) ctx level = elim (apply_global p ctx level) [
  | proceed ctx' level' ↦ apply_globals ps ctx' level'
  | show_help status ↦ show_help status
  | show_version ↦ show_version
]

-- getopt_long with the options of main, and with those of run.
pub record Getopt : Type 0 where
  pub parse_main : List Bytes → Arguments
  pub parse_run : List Bytes → Arguments

module _ (H : Host) where
  unfoldable pub print_lines : List Bytes → M Code
  print_lines [] = pure ok
  print_lines (l ∷ ls) = do call H (print_out l); print_lines ls

  unfoldable pub cmd_ps : M Ended
  cmd_ps = do
    call H (print_out (codes "CONTAINER ID    NAME              STATUS     PID\n"))
    call H (print_out (codes "(container listing not yet implemented)\n"))
    pure (exited 0)

  -- runtime_cleanup, which a crash does not come to.
  abbrev pub clean_up : Runtime → RuntimeCtx → Ended → M Ended
  clean_up R ctx (exited status) = do R.runtime_cleanup ctx; pure (exited status)
  clean_up R ctx crashed = pure crashed

module _ (H : Host) (R : Runtime) (G : Getopt) (D : Doubles) (prog : Bytes) where
  -- The command that the first operand names.
  unfoldable pub dispatch : RuntimeCtx → Bytes → List Bytes → M Ended
  dispatch ctx cmd rest =
      if equal cmd (codes "run")
      then cmd_run H R D ctx (G.parse_run rest)
      else if equal cmd (codes "ps")
      then cmd_ps H
      else (do
        call H (print_err (codes "Unknown command: " ++ (cmd ++ codes "\n")))
        print_lines H (usage_lines prog)
        pure (exited 1))

  -- Behind the loop over the global options. The level counts for what the runtime logs.
  unfoldable pub start_runtime : RuntimeCtx → List Bytes → M Ended
  start_runtime ctx [] = do print_lines H (usage_lines prog); pure (exited 1)
  start_runtime ctx (cmd ∷ rest) = do
    euid ← call H geteuid
    if not (result euid == 0)
        then (do
          call H (print_err (codes "Error: cruntime requires root privileges\n"))
          pure (exited 1))
        else (do
          started ← R.runtime_init ctx
          if is_ok started.0
              then (do ended ← dispatch started.1 cmd rest; clean_up H R started.1 ended)
              else (do
                call H (print_err (codes "Failed to initialize runtime\n"))
                pure (exited 1)))

  unfoldable pub after_globals : Global → List Bytes → M Ended
  after_globals (proceed ctx level) operands = start_runtime ctx operands
  after_globals (show_help status) operands = do
    print_lines H (usage_lines prog)
    pure (exited status)
  after_globals show_version operands = do
    call H (print_out (codes "cruntime version 1.0.0\n"))
    pure (exited 0)

  unfoldable pub main : List Bytes → M Ended
  main args =
      let parsed = G.parse_main args in
      after_globals (apply_globals parsed.options default_ctx initial_log_level) parsed.operands
