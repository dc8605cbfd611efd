-- ===== src/Network/Bridge.antt =====
-- The commands of the bridge: creation, a second creation, and deletion.
use cruntm.Base.{
  ◌≡◌, refl, ◌⊎◌, inl, inr, Bool-cases, Option-cases, Bool, true, false, none, some, List, [], ◌∷◌,
  ◌++◌, arith, backwards, if◌then◌else◌,
}
use cruntm.Text.{Bytes, strncpy, strchr}
use cruntm.Types.{ok, error, einval, is_ok}
use cruntm.Host.{Host, Trace, call, system, is_zero}
use cruntm.Host.Commands.{Log, commands, Step, must, may, Execution, Follows}
use cruntm.Commands.{
  show_command, add_bridge_command, add_address_command, link_up_command, ip_forward_command,
  masquerade_command, forward_within_command, forward_back_command,
}
use cruntm.Network.{
  Inet, exec_cmd, exec_or_return, gateway_of, configure_bridge, network_create_bridge,
}
use cruntm.Network.Script.{pure-Follows, exec_or_return-Follows, exec_then-Follows}

-- What is done behind the creation of the link, for a subnet "network/mask".
abbrev pub bridge_plan : Inet → Bytes → Bytes → Bytes → Bytes → List Step
bridge_plan I bridge subnet network mask =
    must (add_address_command (gateway_of I network) mask bridge)
    ∷ must (link_up_command bridge)
    ∷ may ip_forward_command
    ∷ may (masquerade_command subnet bridge)
    ∷ may (forward_within_command bridge)
    ∷ may (forward_back_command bridge)
    ∷ []

module _ (H : Host) (I : Inet) where
  configure_bridge-Follows :
      (bridge subnet network mask : Bytes)
      → Follows
          (bridge_plan I bridge subnet network mask)
          (configure_bridge H I bridge subnet (some (network, mask)))
  unfolding configure_bridge
  configure_bridge-Follows bridge subnet network mask = exec_or_return-Follows H (
      exec_or_return-Follows H (
        exec_then-Follows H
          (exec_then-Follows H (exec_then-Follows H (exec_then-Follows H pure-Follows)))))

  -- A bridge that the host shows is taken as it is: CR_OK, and no command but the question.
  network_create_bridge_shown :
      (bridge subnet : Bytes) (t : Trace)
      → is_zero (H.answer t (system (show_command bridge))) ≡ true
      → ((network_create_bridge H I bridge subnet t).0 ≡ ok)
        × (commands (network_create_bridge H I bridge subnet t).1
            ≡ (show_command bridge, true) ∷ commands t)
  unfolding network_create_bridge commands
  network_create_bridge_shown bridge subnet t h = ground arith

  network_create_bridge_step :
      (bridge subnet network mask : Bytes) (t : Trace)
      → is_zero (H.answer t (system (show_command bridge))) ≡ false
      → strchr b'/' (strncpy 64 subnet) ≡ some (network, mask)
      → network_create_bridge H I bridge subnet t
        ≡ exec_or_return H
            (add_bridge_command bridge)
            (configure_bridge H I bridge subnet (some (network, mask)))
            (call H (system (show_command bridge)) t).1
  unfolding network_create_bridge
  network_create_bridge_step bridge subnet network mask t h s = rw (h, s) refl

  -- For a bridge that the host does not show, on a subnet whose copy of 64 bytes at most reads
  -- "network/mask", the question and the creation of the link come first, and behind them the plan is
  -- carried out; the code is CR_OK exactly if the plan came to its end.
  network_create_bridge_fresh :
      (bridge subnet network mask : Bytes) (t : Trace)
      → is_zero (H.answer t (system (show_command bridge))) ≡ false
      → strchr b'/' (strncpy 64 subnet) ≡ some (network, mask)
      → (log : Log) × (commands (network_create_bridge H I bridge subnet t).1
          ≡ backwards log ++ (show_command bridge, false) ∷ commands t)
        × Execution
            (must (add_bridge_command bridge) ∷ bridge_plan I bridge subnet network mask)
            log
            (is_ok (network_create_bridge H I bridge subnet t).0)
  unfolding network_create_bridge commands
  network_create_bridge_fresh bridge subnet network mask t h s =
      let plan =
        exec_or_return-Follows H {cmd = add_bridge_command bridge}
          (configure_bridge-Follows bridge subnet network mask) in
      let (log, e, x) = plan.run (call H (system (show_command bridge)) t).1 in
      rw (network_create_bridge_step bridge subnet network mask t h s) (log, ground (arith, e), x)

  -- For a bridge that the host does not show, and a subnet without a slash, the link is created, and
  -- only then is the subnet refused by CR_EINVAL, with no further command. If the creation fails the
  -- code is CR_ERROR.
  network_create_bridge_invalid :
      (bridge subnet : Bytes) (t : Trace)
      → is_zero (H.answer t (system (show_command bridge))) ≡ false
      → strchr b'/' (strncpy 64 subnet) ≡ none
      → (made : Bool) × (commands (network_create_bridge H I bridge subnet t).1
          ≡ (add_bridge_command bridge, made) ∷ (show_command bridge, false) ∷ commands t)
        × ((network_create_bridge H I bridge subnet t).0 ≡ (if made then einval else error))
  unfolding network_create_bridge configure_bridge exec_or_return exec_cmd commands
  network_create_bridge_invalid bridge subnet t h s =
      let u = (call H (system (show_command bridge)) t).1 in
      (is_zero (H.answer u (system (add_bridge_command bridge))), ground arith, ground arith)

  -- The three cases of the bridge. One that the host shows is taken as it is: CR_OK, and no command
  -- but the question. For one that it does not show, and a subnet whose copy of 64 bytes at most has
  -- no slash, the link is created, and only then is the subnet refused by CR_EINVAL, with no further
  -- command; if the creation fails the code is CR_ERROR. For a subnet "network/mask" the creation of
  -- the link and the plan behind it are carried out in their order, and the code is CR_OK exactly if
  -- the plan came to its end.
  pub network_create_bridge_lem :
      (bridge subnet : Bytes) (t : Trace)
      → let (code, t') = network_create_bridge H I bridge subnet t in
        let shown = is_zero (H.answer t (system (show_command bridge))) in
        ((shown ≡ true) × (code ≡ ok) × (commands t' ≡ (show_command bridge, true) ∷ commands t))
        ⊎ ((shown ≡ false)
            × (strchr b'/' (strncpy 64 subnet) ≡ none)
            × ((made : Bool) × (commands t'
                  ≡ (add_bridge_command bridge, made) ∷ (show_command bridge, false) ∷ commands t)
                × (code ≡ (if made then einval else error))))
        ⊎ ((shown ≡ false)
            × ((network : Bytes) × (mask : Bytes) × (log : Log) × (strchr b'/' (strncpy 64 subnet)
                  ≡ some (network, mask))
                × (commands t' ≡ backwards log ++ (show_command bridge, false) ∷ commands t)
                × Execution
                    (must (add_bridge_command bridge) ∷ bridge_plan I bridge subnet network mask)
                    log
                    (is_ok code)))
  network_create_bridge_lem bridge subnet t =
      elim (Bool-cases (is_zero (H.answer t (system (show_command bridge))))) [
        | inl h ↦
            let (good, said) = network_create_bridge_shown bridge subnet t h in inl (h, good, said)
        | inr h ↦ elim (Option-cases (strchr b'/' (strncpy 64 subnet))) [
          | inl s ↦ inr (inl (h, s, network_create_bridge_invalid bridge subnet t h s))
          | inr ((network, mask), s) ↦
              let (log, e, x) = network_create_bridge_fresh bridge subnet network mask t h s in
              inr (inr (h, (network, mask, log, s, e, x)))
        ]
      ]
