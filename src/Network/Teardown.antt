-- ===== src/Network/Teardown.antt =====
-- What a container leaves in the firewall when it has been set up and cleaned up.
use mathlib.Core.Quot
use cruntm.Base.{
  ℕ, ◌≡◌, refl, sym, ap, ◌∙◌, inl, inr, false, Option, none, some, List, [], ◌∷◌, arith, take,
  length, ltb, Bool-cases,
}
use cruntm.Text.{Bytes, codes, snprintf, strncpy, strchr}
use cruntm.Text.Laws.{equal}
use cruntm.Base.Int.{ℤ}
use cruntm.Types.{Code, Container, PortMapping, NetworkConfig, is_ok}
use cruntm.Host.{Host, M, Trace}
use cruntm.Commands.{
  link_up_command, veth_host, add_veth_command, set_master_command, move_command, enter_command,
  delete_link_command,
}
use cruntm.Network.{
  Inet, is_empty, exec_cmd, exec_or_return, exec_then, bare_address, ensure_address, ensure_gateway,
  draw_address, network_allocate_ip, network_create_bridge, network_setup_veth,
  network_remove_port_forwarding, network_setup_container, network_cleanup_container,
}
use cruntm.Network.Firewall.{
  other, action, rules, IsIptables, IsFree, AddsPorts, Table, setup-count, remove_restores,
}

-- The code leaves the rules of iptables alone.
abbrev KeepsRules : {A : Type 0} → M A → Type 0
KeepsRules m = (t : Trace) → rules (m t).1 ≡ rules t

module _ (H : Host) where
  exec_cmd-KeepsRules : (cmd : Bytes) → action cmd ≡ other → KeepsRules (exec_cmd H cmd)
  unfolding exec_cmd rules
  exec_cmd-KeepsRules cmd h t = ground (arith, h)

  exec_or_return-KeepsRules :
      (cmd : Bytes) (next : M Code)
      → action cmd ≡ other
      → KeepsRules next
      → KeepsRules (exec_or_return H cmd next)
  unfolding exec_or_return
  exec_or_return-KeepsRules cmd next h k t =
      ground (arith, exec_cmd-KeepsRules cmd h t, k (exec_cmd H cmd t).1)

  exec_then-KeepsRules :
      (cmd : Bytes) (next : M Code)
      → action cmd ≡ other
      → KeepsRules next
      → KeepsRules (exec_then H cmd next)
  unfolding exec_then
  exec_then-KeepsRules cmd next h k t = k (exec_cmd H cmd t).1 ∙ exec_cmd-KeepsRules cmd h t

  network_setup_veth-KeepsRules :
      (id bridge ip gateway : Bytes) (pid : ℤ)
      → KeepsRules (network_setup_veth H id bridge ip gateway pid)
  unfolding network_setup_veth action equal codes snprintf take add_veth_command set_master_command
      link_up_command move_command enter_command
  network_setup_veth-KeepsRules id bridge ip gateway pid = exec_or_return-KeepsRules _ _ refl (
      exec_or_return-KeepsRules _ _ refl (
        exec_or_return-KeepsRules _ _ refl (
          exec_or_return-KeepsRules _ _ refl (
            exec_or_return-KeepsRules _ _ refl (
              exec_or_return-KeepsRules _ _ refl (
                exec_or_return-KeepsRules _ _ refl (exec_then-KeepsRules _ _ refl (λ t. refl))))))))

  draw_address-KeepsRules :
      (I : Inet) (cut : Option (Bytes × Bytes)) (n : ℕ) (buffer : Bytes)
      → KeepsRules (draw_address H I cut n buffer)
  unfolding draw_address rules
  draw_address-KeepsRules I none n buffer t = refl
  draw_address-KeepsRules I (some (network, mask)) n buffer t = refl

  ensure_address-KeepsRules : (I : Inet) (net : NetworkConfig) → KeepsRules (ensure_address H I net)
  unfolding ensure_address network_allocate_ip
  ensure_address-KeepsRules I net t = elim (Bool-cases (is_empty net.ip_address)) [
    | inl e ↦
        rw e (draw_address-KeepsRules I (strchr b'/' (strncpy 64 net.subnet)) 64 net.ip_address t)
    | inr e ↦ rw e refl
  ]

  unchanged-AddsPorts :
      (ip : Bytes) (ports : List PortMapping) (before after : List Bytes)
      → after ≡ before
      → AddsPorts ip ports before after
  unchanged-AddsPorts ip ports before after h r = rw h (omega arith, omega arith)

  -- Behind the bridge, set-up adds nothing but rules of the ports, on every path.
  network_setup_container-AddsPorts :
      (I : Inet) (c : Container) (t : Trace)
      → let u =
          (network_create_bridge H I c.config.network.bridge_name c.config.network.subnet t).1 in
        let ((code, c'), t') = network_setup_container H I c t in
        AddsPorts
          (bare_address c'.config.network.ip_address)
          c'.config.network.ports
          (rules u)
          (rules t')
  unfolding network_setup_container
  network_setup_container-AddsPorts I c t =
      let net = c.config.network in
      let bridged = network_create_bridge H I net.bridge_name net.subnet t in
      let addressed = ensure_address H I net bridged.1 in
      let kept = ensure_address-KeepsRules I net bridged.1 in
      let net' = ensure_gateway I addressed.0.1 in
      let veth =
        network_setup_veth H c.config.id net'.bridge_name net'.ip_address net'.gateway c.init_pid in
      let kept' =
        network_setup_veth-KeepsRules c.config.id net'.bridge_name net'.ip_address net'.gateway
          c.init_pid addressed.1 in
      elim (Bool-cases (is_ok bridged.0)) [
        | inr b ↦ rw b (unchanged-AddsPorts _ _ _ _ refl)
        | inl b ↦ elim (Bool-cases (is_ok addressed.0.0)) [
          | inr a ↦ rw (b, a) (unchanged-AddsPorts _ _ _ _ kept)
          | inl a ↦ elim (Bool-cases (is_ok (veth addressed.1).0)) [
            | inr v ↦ rw (b, a, v) (unchanged-AddsPorts _ _ _ _ (kept' ∙ kept))
            | inl v ↦ elim (Bool-cases (ltb 0 (length net'.ports))) [
              | inr p ↦ rw (b, a, v, p) (unchanged-AddsPorts _ _ _ _ (kept' ∙ kept))
              | inl p ↦
                  rw (b, a, v, p)
                    (λ r. rw (sym (kept' ∙ kept)) (
                      setup-count H (bare_address net'.ip_address) net'.ports r
                        (veth addressed.1).1))
            ]
          ]
        ]
      ]

  delete_link_other : (c : Container) → action (delete_link_command (veth_host c.config.id)) ≡ other
  unfolding action equal codes snprintf take delete_link_command
  delete_link_other c = refl

  no_ports :
      (ip : Bytes) (ports : List PortMapping) (t : Trace)
      → ltb 0 (length ports) ≡ false
      → (network_remove_port_forwarding H ip ports t).1 ≡ t
  unfolding network_remove_port_forwarding
  no_ports ip [] t h = refl
  no_ports ip (pm ∷ ports) t h = absurd (ground arith)

  network_cleanup_container-rules :
      (c : Container) (t : Trace)
      → let net = c.config.network in
        rules (network_cleanup_container H c t).1
        ≡ rules (network_remove_port_forwarding H (bare_address net.ip_address) net.ports t).1
  unfolding network_cleanup_container
  network_cleanup_container-rules c t =
      let net = c.config.network in
      let u = (network_remove_port_forwarding H (bare_address net.ip_address) net.ports t).1 in
      let delete = delete_link_command (veth_host c.config.id) in
      elim (Bool-cases (ltb 0 (length net.ports))) [
        | inl p ↦ rw p (exec_cmd-KeepsRules delete (delete_link_other c) u)
        | inr p ↦ rw p (
            exec_cmd-KeepsRules delete (delete_link_other c) t
            ∙ sym (ap rules (no_ports (bare_address net.ip_address) net.ports t p)))
      ]

module _ (H : Host) (I : Inet) (c : Container) (t : Trace) where
  -- Behind the creation of the bridge, which is the first step of the set-up.
  abbrev pub with_bridge : Trace
  with_bridge = (network_create_bridge H I c.config.network.bridge_name c.config.network.subnet t).1

  abbrev pub set_up : Container
  set_up = (network_setup_container H I c t).0.1

  -- A container is set up and, whether that succeeds or not, cleaned up with the address that it then
  -- has. On a host where `iptables -D` behaves as documented, and where behind the creation of the
  -- bridge no rule of its ports is there, iptables has the same rules at the end as behind the creation
  -- of the bridge: each as often, in whatever order.
  pub setup_cleanup_restores :
      IsIptables H
      → IsFree
          (bare_address set_up.config.network.ip_address)
          set_up.config.network.ports
          with_bridge
      → ◌≡◌ {A = Table}
          (Quot.mk
            (rules (network_cleanup_container H set_up (network_setup_container H I c t).1).1))
          (Quot.mk (rules with_bridge))
  setup_cleanup_restores iptables free =
      let net = set_up.config.network in
      let t' = (network_setup_container H I c t).1 in
      ap Quot.mk (network_cleanup_container-rules H set_up t')
      ∙ remove_restores H iptables (bare_address net.ip_address) net.ports with_bridge t' free
          (network_setup_container-AddsPorts H I c t)
