-- ===== src/Network.antt =====
-- src/network/network.c: the bridge, the veth pair of a container, port forwarding by iptables and
-- the allocation of addresses, all by shell commands. The messages to the log are left out.
pub mod Script
pub mod Bridge
pub mod Veth
pub mod Ports
pub mod Firewall
pub mod Teardown
pub mod Success
pub mod Address
pub mod Setup
use Prim.Native.Nat.{bit_xor}
use cruntm.Base.{
  ℕ, zero, suc, ◌+◌, ◌-◌, ◌*◌, ◌/◌, ◌%◌, ◌^◌, ◌≤◌, ◌<◌, ◌≡◌, refl, sym, ap, ◌∙◌, ◌≢◌, ◌⊎◌, ◌↔◌, inl,
  inr, Bool, true, false, not, ◌&&◌, ◌||◌, Option, none, some, List, [], ◌∷◌, ◌++◌, append-nil,
  append_assoc, arith, take, length, map, length-append, length-take-le, take-eq_self, All,
  backwards, ltb, leb, ◌==◌, ltb→lt, leb→le, ==_iff, Bool-cases, if◌then◌else◌,
}
use cruntm.Base.Int.{ℤ}
use cruntm.Text.{Bytes, codes, snprintf, strncpy, strchr, decimal, print_int}
use cruntm.Types.{
  PortMapping, NetworkConfig, ContainerConfig, Container, Code, ok, error, einval, is_ok,
}
use cruntm.Commands.{
  command, show_command, add_bridge_command, add_address_command, link_up_command,
  link_down_command, ip_forward_command, masquerade_command, forward_within_command,
  forward_back_command, delete_bridge_command, veth_host, veth_container, add_veth_command,
  set_master_command, move_command, enter_command, delete_link_command, dnat_rule, forward_rule,
  add_dnat_command, add_forward_command, delete_dnat_command, delete_forward_command,
}
use cruntm.Host.{
  Host, M, pure, ◌>>=◌, ◌>>◌, call, system, time, getpid, srand, rand, Reply, is_zero, result,
}

-- inet_pton and inet_ntop for IPv4, with the address in host byte order. `parse` is the number that
-- `ntohl(addr.s_addr)` is after inet_pton, also where that fails and its result is not looked at.
pub record Inet : Type 0 where
  pub parse : Bytes → ℕ
  pub print : ℕ → Bytes

-- htonl(ntohl(addr.s_addr) + k) on a `uint32_t`.
unfoldable pub add_address : ℕ → ℕ → ℕ
add_address address k = (address + k) % 2 ^ 32

-- The text before the first '/', or the whole text.
abbrev pub before_slash : Option (Bytes × Bytes) → Bytes → Bytes
before_slash none text = text
before_slash (some (before, after)) text = before

-- char container_ip[64]: the address without its mask.
unfoldable pub bare_address : Bytes → Bytes
bare_address ip_address =
    let copied = strncpy 64 ip_address in before_slash (strchr b'/' copied) copied

abbrev pub is_empty : Bytes → Bool
is_empty [] = true
is_empty (c ∷ cs) = false

-- ip_len - strlen(text) - 1, which wraps around behind a text that does not fit.
abbrev pub room_behind : ℕ → Bytes → ℕ
room_behind ip_len text =
    if ltb (length text) ip_len then ip_len - length text - 1 else ip_len + 2 ^ 64 - length text - 1

-- The text behind `strncat(ip, "/", …); strncat(ip, mask, …);` in a buffer of `ip_len` bytes.
unfoldable pub append_mask : ℕ → Bytes → Bytes → Bytes
append_mask ip_len address mask =
    let with_slash = address ++ take (room_behind ip_len address) (codes "/") in
    with_slash ++ take (room_behind ip_len with_slash) mask

-- The buffer behind inet_ntop, which leaves it alone where the text and its NUL do not fit.
abbrev pub printed_in : ℕ → Bytes → Bytes → Bytes
printed_in ip_len buffer text = if ltb (length text) ip_len then text else buffer

-- (rand() % 253) + 2
unfoldable pub offset_of : ℕ → ℕ
offset_of random = random % 253 + 2

abbrev pub with_network : Container → NetworkConfig → Container
with_network container net = record container {
  config = record (container.config) { network = net };
}

module _ (I : Inet) where
  -- The first address of the subnet.
  unfoldable pub gateway_of : Bytes → Bytes
  gateway_of network = I.print (add_address (I.parse network) 1)

  abbrev pub gateway_or_old : Option (Bytes × Bytes) → Bytes → Bytes
  gateway_or_old none old = old
  gateway_or_old (some (network, mask)) old = gateway_of network

  -- if (strlen(net->gateway) == 0) { … }
  unfoldable pub ensure_gateway : NetworkConfig → NetworkConfig
  ensure_gateway net =
      if is_empty net.gateway
      then record net { gateway = gateway_or_old (strchr b'/' (strncpy 64 net.subnet)) net.gateway }
      else net

module _ (H : Host) where
  unfoldable pub exec_cmd : Bytes → M Code
  exec_cmd cmd = do status ← call H (system cmd); pure (if is_zero status then ok else error)

  -- if (exec_cmd(cmd) != CR_OK) return CR_ERROR;
  unfoldable pub exec_or_return : Bytes → M Code → M Code
  exec_or_return cmd next = do code ← exec_cmd cmd; if is_ok code then next else pure error

  -- exec_cmd(cmd);
  unfoldable pub exec_then : Bytes → M Code → M Code
  exec_then cmd next = do exec_cmd cmd; next

  unfoldable pub network_delete_bridge : Bytes → M Code
  network_delete_bridge bridge =
      exec_then (link_down_command bridge) (exec_or_return (delete_bridge_command bridge) (pure ok))

  unfoldable pub network_setup_veth : Bytes → Bytes → Bytes → Bytes → ℤ → M Code
  network_setup_veth container_id bridge ip_address gateway pid =
      let host_end = veth_host container_id in
      exec_or_return (add_veth_command host_end) (
        exec_or_return (set_master_command host_end bridge) (
          exec_or_return (link_up_command host_end) (
            exec_or_return (move_command pid) (
              exec_or_return
                (enter_command pid
                  (codes "ip addr add " ++ (ip_address ++ (codes " dev " ++ veth_container))))
                (exec_or_return
                  (enter_command pid (codes "ip link set " ++ (veth_container ++ codes " up")))
                  (exec_or_return (enter_command pid (codes "ip route add default via " ++ gateway))
                    (exec_then (enter_command pid (codes "ip link set lo up")) (pure ok))))))))

  unfoldable pub network_setup_port_forwarding : Bytes → List PortMapping → M Code
  network_setup_port_forwarding ip [] = pure ok
  network_setup_port_forwarding ip (pm ∷ rest) =
      let next = network_setup_port_forwarding ip rest in
      do
        added ← exec_cmd (add_dnat_command ip pm)
        if is_ok added then (do exec_cmd (add_forward_command ip pm); next) else next

  unfoldable pub network_remove_port_forwarding : Bytes → List PortMapping → M Code
  network_remove_port_forwarding ip [] = pure ok
  network_remove_port_forwarding ip (pm ∷ rest) =
      let next = network_remove_port_forwarding ip rest in
      do exec_cmd (delete_dnat_command ip pm); exec_cmd (delete_forward_command ip pm); next

  -- if (net->num_ports > 0) { … } of network_cleanup_container and network_setup_container: the loop
  -- over no ports does nothing.
  unfoldable pub network_cleanup_container : Container → M Code
  network_cleanup_container container = do
    let net = container.config.network
    if ltb 0 (length net.ports)
        then (do
          network_remove_port_forwarding (bare_address net.ip_address) net.ports
          exec_cmd (delete_link_command (veth_host container.config.id))
          pure ok)
        else (do exec_cmd (delete_link_command (veth_host container.config.id)); pure ok)

module _ (H : Host) (I : Inet) where
  -- Behind the creation of the link, on the subnet cut at its slash.
  unfoldable pub configure_bridge : Bytes → Bytes → Option (Bytes × Bytes) → M Code
  configure_bridge bridge subnet none = pure einval
  configure_bridge bridge subnet (some (network, mask)) =
      exec_or_return H (add_address_command (gateway_of I network) mask bridge) (
        exec_or_return H (link_up_command bridge) (
          exec_then H ip_forward_command (
            exec_then H (masquerade_command subnet bridge) (
              exec_then H (forward_within_command bridge)
                (exec_then H (forward_back_command bridge) (pure ok))))))

  unfoldable pub network_create_bridge : Bytes → Bytes → M Code
  network_create_bridge bridge subnet = do
    shown ← call H (system (show_command bridge))
    if is_zero shown
        then pure ok
        else exec_or_return H (add_bridge_command bridge)
            (configure_bridge bridge subnet (strchr b'/' (strncpy 64 subnet)))

  -- Behind the search for the slash; `buffer` is what the caller's buffer holds.
  unfoldable pub draw_address : Option (Bytes × Bytes) → ℕ → Bytes → M (Code × Bytes)
  draw_address none ip_len buffer = pure (einval, buffer)
  draw_address (some (network, mask)) ip_len buffer = do
    now ← call H time
    pid ← call H getpid
    call H (srand (bit_xor (result now) (result pid)))
    random ← call H rand
    let address = add_address (I.parse network) (offset_of (result random))
    pure (ok, append_mask ip_len (printed_in ip_len buffer (I.print address)) mask)

  unfoldable pub network_allocate_ip : Bytes → ℕ → Bytes → M (Code × Bytes)
  network_allocate_ip subnet ip_len buffer =
      draw_address (strchr b'/' (strncpy 64 subnet)) ip_len buffer

  -- if (strlen(net->ip_address) == 0) { … }
  unfoldable pub ensure_address : NetworkConfig → M (Code × NetworkConfig)
  ensure_address net =
      if is_empty net.ip_address
      then (do
        got ← network_allocate_ip net.subnet 64 net.ip_address
        pure (got.0, record net { ip_address = got.1 }))
      else pure (ok, net)

  -- The code, and the container with its network settings filled in.
  unfoldable pub network_setup_container : Container → M (Code × Container)
  network_setup_container container = do
    let net = container.config.network
    bridged ← network_create_bridge net.bridge_name net.subnet
    if not (is_ok bridged) then pure (error, container) else do
      addressed ← ensure_address net
      if not (is_ok addressed.0) then pure (error, with_network container addressed.1) else do
        let net' = ensure_gateway I addressed.1
        linked ←
            network_setup_veth H container.config.id net'.bridge_name net'.ip_address net'.gateway
              container.init_pid
        if not (is_ok linked)
            then pure (error, with_network container net')
            else (if ltb 0 (length net'.ports)
                then (do
                  network_setup_port_forwarding H (bare_address net'.ip_address) net'.ports
                  pure (ok, with_network container net'))
                else pure (ok, with_network container net'))
