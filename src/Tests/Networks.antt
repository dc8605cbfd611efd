-- ===== src/Tests/Networks.antt =====
-- The theorems on the network at concrete inputs.
use mathlib.Core.List.{Sublistᴰ}
use cruntm.Base.{
  ltb, ℕ, ◌≤◌, ◌≡◌, refl, ◌≢◌, ◌⊎◌, Bool, true, false, none, some, [], ◌∷◌, ◌++◌, arith, take, map,
  backwards, if◌then◌else◌,
}
use cruntm.Base.Int.{pos}
use cruntm.Text.{Bytes, codes, snprintf, strncpy, strchr}
use cruntm.Text.Laws.{equal}
use cruntm.Types.{PortMapping, Container, ok, error, einval, is_ok}
use cruntm.Host.{Host, Trace, Call, Reply, value, system, is_zero}
use cruntm.Host.Commands.{Log, commands, must, Execution, Follows}
use cruntm.Commands.{
  add_veth_command, set_master_command, link_up_command, move_command, enter_command,
  add_dnat_command, add_forward_command, show_command, add_bridge_command,
}
use cruntm.Network.{
  is_empty, add_address, bare_address, with_network, ensure_gateway, ensure_address, exec_cmd,
  exec_or_return, exec_then, network_setup_veth, network_setup_port_forwarding,
  network_remove_port_forwarding, network_cleanup_container, network_create_bridge,
  network_allocate_ip, draw_address, network_setup_container,
}
use cruntm.Network.Bridge.{bridge_plan, network_create_bridge_lem}
use cruntm.Network.Veth.{veth_plan, network_setup_veth-Follows}
use cruntm.Network.Ports.{undo, deletions, texts, remove-setup-undo}
use cruntm.Network.Address.{network_allocate_ip_lem}
use cruntm.Network.Setup.{HasGateway, network_setup_container_frame}
use cruntm.Network.Firewall.{Action, deletes, action, mark, count, rules, IsIptables, IsFree, Table}
use cruntm.Network.Success.{asks, Obliges, network_setup_container-Succeeds}
use cruntm.Network.Teardown.{with_bridge, set_up, setup_cleanup_restores}
use mathlib.Core.Quot
use cruntm.Main.{default_settings}
use cruntm.Tests.Hosts.{accept, accepting, shell_less, inet, dotted, length-dotted, fresh_container}

abbrev bridge : Bytes
bridge = codes "cr0"

abbrev subnet : Bytes
subnet = codes "172.17.0.0/16"

abbrev network : Bytes
network = codes "172.17.0.0"

abbrev web : PortMapping
web = record { host_port = 8080; container_port = 80; protocol = codes "tcp" }

-- The default container, with a published port.
abbrev box : Container
box =
    let c = (default_settings (codes "0123456789abcdef") 0 0).config in
    fresh_container (record c { network = record (c.network) { ports = web ∷ [] } })

subnet_cut : strchr b'/' (strncpy 64 subnet) ≡ some (network, codes "16")
unfolding strchr strncpy codes take
subnet_cut = refl

network_create_bridge_lem_example :
    let (code, t') = network_create_bridge shell_less inet bridge subnet [] in
    let shown = is_zero (shell_less.answer [] (system (show_command bridge))) in
    ((shown ≡ true) × (code ≡ ok) × (commands t' ≡ (show_command bridge, true) ∷ commands []))
    ⊎ ((shown ≡ false)
        × (strchr b'/' (strncpy 64 subnet) ≡ none)
        × ((made : Bool) × (commands t'
              ≡ (add_bridge_command bridge, made) ∷ (show_command bridge, false) ∷ commands [])
            × (code ≡ (if made then einval else error))))
    ⊎ ((shown ≡ false)
        × ((network : Bytes) × (mask : Bytes) × (log : Log) × (strchr b'/' (strncpy 64 subnet)
              ≡ some (network, mask))
            × (commands t' ≡ backwards log ++ (show_command bridge, false) ∷ commands [])
            × Execution
                (must (add_bridge_command bridge) ∷ bridge_plan inet bridge subnet network mask)
                log
                (is_ok code)))
network_create_bridge_lem_example = network_create_bridge_lem shell_less inet bridge subnet []

network_setup_veth-Follows_example :
    Follows
      (veth_plan
        (codes "0123456789abcdef")
        bridge
        (codes "172.17.0.9/16")
        (codes "172.17.0.1")
        (pos 42))
      (network_setup_veth accepting
        (codes "0123456789abcdef")
        bridge
        (codes "172.17.0.9/16")
        (codes "172.17.0.1")
        (pos 42))
network_setup_veth-Follows_example =
    network_setup_veth-Follows accepting (codes "0123456789abcdef") bridge (codes "172.17.0.9/16")
      (codes "172.17.0.1") (pos 42)

remove-setup-undo_example :
    (added : Log) × (removed : Log) × (commands
        (network_setup_port_forwarding accepting (codes "172.17.0.9") (web ∷ []) []).1
      ≡ backwards added ++ commands [])
    × (commands (network_remove_port_forwarding shell_less (codes "172.17.0.9") (web ∷ []) []).1
        ≡ backwards removed ++ commands [])
    × Sublistᴰ (map undo (texts added)) (texts removed)
remove-setup-undo_example =
    remove-setup-undo accepting shell_less (codes "172.17.0.9") (web ∷ []) [] []

network_allocate_ip_lem_example :
    (k : ℕ) × (2 ≤ k)
    × (k ≤ 254)
    × ((network_allocate_ip accepting inet subnet 64 [] []).0
        ≡ (ok, dotted (add_address 0xAC11_0000 k) ++ b'/' ∷ codes "16"))
    × (add_address 0xAC11_0000 k ≢ 0xAC11_0000)
    × (add_address 0xAC11_0000 k ≢ add_address 0xAC11_0000 1)
unfolding codes
network_allocate_ip_lem_example =
    network_allocate_ip_lem accepting inet subnet network (codes "16") [] 64 [] subnet_cut
      (omega arith) (λ a. omega (arith, length-dotted a))

box_set_up : (network_setup_container accepting inet box []).0.0 ≡ ok
unfolding network_setup_container network_create_bridge exec_or_return exec_cmd exec_then
    network_setup_veth ensure_address network_allocate_ip draw_address accept ensure_gateway strchr
    strncpy codes take network_setup_port_forwarding fresh_container default_settings
box_set_up = refl

network_setup_container_frame_example :
    let net = box.config.network in
    let c' = (network_setup_container accepting inet box []).0.1 in
    let net' = c'.config.network in
    (c' ≡ with_network box (record net { ip_address = net'.ip_address; gateway = net'.gateway }))
    × ((is_empty net.ip_address ≡ true) ⊎ (net'.ip_address ≡ net.ip_address))
    × HasGateway inet net net'.gateway
network_setup_container_frame_example =
    network_setup_container_frame accepting inet box [] box_set_up

-- A deletion of a rule succeeds if the rule is there.
abbrev deletion_or : Action → Bytes → Trace → Reply
deletion_or deletes cmd t = if ltb 0 (count cmd (rules t)) then value 0 else value 1
deletion_or _ cmd t = value 0

unfoldable pub filter_packets : Trace → Call → Reply
filter_packets t (system cmd) = deletion_or (action cmd) cmd t
filter_packets t c = value 0

abbrev pub filtering : Host
filtering = record { answer = filter_packets; input = λ t c. [] }

pub filtering-IsIptables : IsIptables filtering
unfolding filter_packets
filtering-IsIptables = record { removes = λ t cmd h. ground (arith, h) }

no_rules : rules (with_bridge filtering inet box []) ≡ []
unfolding network_create_bridge exec_cmd filter_packets rules fresh_container default_settings
    action mark equal codes snprintf take show_command
no_rules = refl

no_rules-IsFree : (ip : Bytes) (t : Trace) → rules t ≡ [] → IsFree ip (web ∷ []) t
unfolding deletions count
no_rules-IsFree ip t h = (rw h refl, (rw h refl, tt))

box_ports : (set_up filtering inet box []).config.network.ports ≡ web ∷ []
unfolding network_setup_container network_create_bridge exec_or_return exec_cmd exec_then
    network_setup_veth ensure_address network_allocate_ip draw_address ensure_gateway strchr strncpy
    codes take network_setup_port_forwarding fresh_container default_settings filter_packets action
    mark equal snprintf show_command add_veth_command set_master_command link_up_command
    move_command enter_command add_dnat_command add_forward_command
box_ports = refl

setup_cleanup_restores_example :
    ◌≡◌ {A = Table}
      (Quot.mk (
        rules
          (network_cleanup_container filtering
            (set_up filtering inet box [])
            (network_setup_container filtering inet box []).1).1))
      (Quot.mk (rules (with_bridge filtering inet box [])))
setup_cleanup_restores_example = setup_cleanup_restores filtering inet box [] filtering-IsIptables (
    rw box_ports (
      no_rules-IsFree (bare_address (set_up filtering inet box []).config.network.ip_address) _
        no_rules))

-- Every command succeeds but `ip link show`.
unfoldable only_asked : Call → Reply
only_asked (system cmd) = if asks cmd then value 1 else value 0
only_asked c = value 0

abbrev obliging : Host
obliging = record { answer = λ t c. only_asked c; input = λ t c. [] }

obliging-Obliges : Obliges obliging
unfolding only_asked
obliging-Obliges = record { obeys = λ t cmd h. rw h refl }

box_subnet : strchr b'/' (strncpy 64 box.config.network.subnet) ≡ some (network, codes "16")
unfolding strchr strncpy codes take fresh_container default_settings
box_subnet = refl

network_setup_container-Succeeds_example :
    let ((code, c'), t') = network_setup_container obliging inet box [] in
    (code ≡ ok) × (is_empty c'.config.network.ip_address ≡ false)
network_setup_container-Succeeds_example =
    network_setup_container-Succeeds obliging inet obliging-Obliges box network (codes "16") []
      box_subnet
