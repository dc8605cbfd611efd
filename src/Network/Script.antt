-- ===== src/Network/Script.antt =====
-- The statements `exec_cmd(cmd);` and `if (exec_cmd(cmd) != CR_OK) return CR_ERROR;` as steps.
use cruntm.Base.{
  refl, ◌∙◌, inl, inr, true, false, List, [], ◌∷◌, append_assoc, arith, backwards, Bool-cases,
}
use cruntm.Text.{Bytes}
use cruntm.Types.{Code, ok}
use cruntm.Host.{Host, M, pure, call, system, is_zero}
use cruntm.Host.Commands.{commands, Step, must, may, finished, passed, refused, tried, Follows}
use cruntm.Network.{exec_cmd, exec_or_return, exec_then}

pub pure-Follows : Follows [] (pure ok)
unfolding backwards
pure-Follows = record { run = λ t. ([], refl, finished) }

module _ (H : Host) {cmd : Bytes} {plan : List Step} {next : M Code} (h : Follows plan next) where
  pub exec_or_return-Follows : Follows (must cmd ∷ plan) (exec_or_return H cmd next)
  unfolding exec_or_return exec_cmd commands backwards
  exec_or_return-Follows = record {
    run = λ t.
        let (log, e, x) = h.run (call H (system cmd) t).1 in
        elim (Bool-cases (is_zero (H.answer t (system cmd)))) [
          | inl z ↦ (
            (cmd, true) ∷ log,
            ground (arith, e, append_assoc (backwards log) ((cmd, true) ∷ []) (commands t)),
            rw z (passed x),
          )
          | inr z ↦ ((cmd, false) ∷ [], ground arith, rw z refused)
        ];
  }

  pub exec_then-Follows : Follows (may cmd ∷ plan) (exec_then H cmd next)
  unfolding exec_then exec_cmd commands backwards
  exec_then-Follows = record {
    run = λ t.
        let (log, e, x) = h.run (call H (system cmd) t).1 in
        let s = is_zero (H.answer t (system cmd)) in
        (
          (cmd, s) ∷ log,
          e ∙ rw (append_assoc (backwards log) ((cmd, s) ∷ []) (commands t)),
          tried s x,
        );
  }
