-- ===== src/Host/Commands.antt =====
-- What a trace says of shell commands, and plans of commands of which a refused one may be the last.
use cruntm.Base.{◌≡◌, Bool, List, [], ◌∷◌, ◌++◌, backwards}
use cruntm.Host.Plans
pub use cruntm.Host.Plans.{must, may, Execution, finished, passed, refused, tried}
use cruntm.Text.{Bytes}
use cruntm.Types.{Code, is_ok}
use cruntm.Host.{M, Call, system, Reply, is_zero, Trace}

-- A command and whether its exit status was 0.
abbrev pub Log : Type 0
Log = List (Bytes × Bool)

abbrev log_step : Call → Reply → Log → Log
log_step (system cmd) r done = (cmd, is_zero r) ∷ done
log_step _ r done = done

-- The commands that were given to the shell, the latest first.
unfoldable pub commands : Trace → Log
commands [] = []
commands (e ∷ t) = log_step e.call e.reply (commands t)

-- A step of a plan of commands.
abbrev pub Step : Type 0
Step = Plans.Step Bytes

-- The code carries out the plan, and returns CR_OK exactly if the plan came to its end.
pub record Follows (plan : List Step) (m : M Code) : Type 0 where
  pub run :
      (t : Trace)
      → (log : Log) × (commands (m t).1 ≡ backwards log ++ commands t)
        × Execution plan log (is_ok (m t).0)
