-- ===== src/Network/Success.antt =====
-- The set-up of a container comes to its end where the host does what it is asked for.
use cruntm.Base.{
  ℕ, zero, suc, ◌<◌, ◌≡◌, refl, ap, ◌∙◌, inl, inr, Bool, true, false, some, [], ◌∷◌, ◌++◌, arith,
  take, length, ltb, Bool-cases,
}
use cruntm.Text.{Bytes, codes, snprintf, strncpy, strchr}
use cruntm.Text.Laws.{equal}
use cruntm.Base.Int.{ℤ}
use cruntm.Types.{Code, Container, NetworkConfig, ok}
use cruntm.Host.{Host, M, Trace, call, system, is_zero}
use cruntm.Commands.{
  show_command, add_bridge_command, add_address_command, link_up_command, add_veth_command,
  set_master_command, move_command, enter_command,
}
use cruntm.Network.{
  Inet, is_empty, exec_cmd, exec_or_return, exec_then, room_behind, append_mask, ensure_address,
  ensure_gateway, draw_address, network_allocate_ip, configure_bridge, network_create_bridge,
  network_setup_veth, network_setup_container,
}

-- `ip link show` only asks for a link, and may fail.
abbrev pub asks : Bytes → Bool
asks cmd = equal (take 12 cmd) (codes "ip link show")

-- Every command that changes something succeeds.
pub record Obliges (H : Host) : Type 0 where
  pub obeys :
      (t : Trace) (cmd : Bytes) → asks cmd ≡ false → is_zero (H.answer t (system cmd)) ≡ true

abbrev Succeeds : M Code → Type 0
Succeeds m = (t : Trace) → (m t).0 ≡ ok

slash_kept : (m : ℕ) (rest : Bytes) → 0 < m → is_empty (take m (codes "/") ++ rest) ≡ false
unfolding take codes
slash_kept zero rest h = absurd (omega arith)
slash_kept (suc m) rest h = refl

append_mask_filled :
    (n : ℕ) (address mask : Bytes) → 1 < n → is_empty (append_mask n address mask) ≡ false
unfolding append_mask
append_mask_filled n [] mask h = slash_kept (room_behind n []) _ (ground (arith, h))
append_mask_filled n (c ∷ address) mask h = refl

ensure_gateway-ip_address :
    (I : Inet) (net : NetworkConfig) → (ensure_gateway I net).ip_address ≡ net.ip_address
unfolding ensure_gateway
ensure_gateway-ip_address I net = ground arith

module _ (H : Host) (obliges : Obliges H) where
  exec_or_return-Succeeds :
      (cmd : Bytes) (next : M Code)
      → asks cmd ≡ false
      → Succeeds next
      → Succeeds (exec_or_return H cmd next)
  unfolding exec_or_return exec_cmd
  exec_or_return-Succeeds cmd next h k t = rw (obliges.obeys t cmd h) (k (exec_cmd H cmd t).1)

  exec_then-Succeeds :
      (cmd : Bytes) (next : M Code) → Succeeds next → Succeeds (exec_then H cmd next)
  unfolding exec_then
  exec_then-Succeeds cmd next k t = k (exec_cmd H cmd t).1

  network_setup_veth-Succeeds :
      (id bridge ip gateway : Bytes) (pid : ℤ)
      → Succeeds (network_setup_veth H id bridge ip gateway pid)
  unfolding network_setup_veth equal codes snprintf take add_veth_command set_master_command
      link_up_command move_command enter_command
  network_setup_veth-Succeeds id bridge ip gateway pid = exec_or_return-Succeeds _ _ refl (
      exec_or_return-Succeeds _ _ refl (
        exec_or_return-Succeeds _ _ refl (
          exec_or_return-Succeeds _ _ refl (
            exec_or_return-Succeeds _ _ refl (
              exec_or_return-Succeeds _ _ refl
                (exec_or_return-Succeeds _ _ refl (exec_then-Succeeds _ _ (λ t. refl))))))))

module _ (H : Host) (I : Inet) (obliges : Obliges H) where
  configure_bridge-Succeeds :
      (bridge subnet network mask : Bytes)
      → Succeeds (configure_bridge H I bridge subnet (some (network, mask)))
  unfolding configure_bridge equal codes snprintf take add_address_command link_up_command
  configure_bridge-Succeeds bridge subnet network mask =
      exec_or_return-Succeeds H obliges _ _ refl (
        exec_or_return-Succeeds H obliges _ _ refl (
          exec_then-Succeeds H obliges _ _ (
            exec_then-Succeeds H obliges _ _
              (exec_then-Succeeds H obliges _ _ (exec_then-Succeeds H obliges _ _ (λ t. refl))))))

  network_create_bridge-Succeeds :
      (bridge subnet network mask : Bytes)
      → strchr b'/' (strncpy 64 subnet) ≡ some (network, mask)
      → Succeeds (network_create_bridge H I bridge subnet)
  unfolding network_create_bridge equal codes snprintf take add_bridge_command
  network_create_bridge-Succeeds bridge subnet network mask s t =
      elim (Bool-cases (is_zero (H.answer t (system (show_command bridge))))) [
        | inl e ↦ rw e refl
        | inr e ↦
            rw (e, s)
              (exec_or_return-Succeeds H obliges (add_bridge_command bridge)
                (configure_bridge H I bridge subnet (some (network, mask))) refl
                (configure_bridge-Succeeds bridge subnet network mask)
                (call H (system (show_command bridge)) t).1)
      ]

  ensure_address_filled :
      (net : NetworkConfig) (network mask : Bytes) (t : Trace)
      → strchr b'/' (strncpy 64 net.subnet) ≡ some (network, mask)
      → ((ensure_address H I net t).0.0 ≡ ok)
        × (is_empty (ensure_address H I net t).0.1.ip_address ≡ false)
  unfolding ensure_address network_allocate_ip draw_address
  ensure_address_filled net network mask t s = elim (Bool-cases (is_empty net.ip_address)) [
    | inl e ↦ rw (e, s) (refl, append_mask_filled 64 _ mask (omega arith))
    | inr e ↦ rw e (refl, e)
  ]

  -- On a host where every command succeeds, but for the question whether the bridge is there, a
  -- container whose subnet reads "network/mask" in its first 64 bytes is set up: the code is CR_OK, and
  -- the container has an address, be it the one that was given or a new one.
  pub network_setup_container-Succeeds :
      (c : Container) (network mask : Bytes) (t : Trace)
      → strchr b'/' (strncpy 64 c.config.network.subnet) ≡ some (network, mask)
      → let ((code, c'), t') = network_setup_container H I c t in
        (code ≡ ok) × (is_empty c'.config.network.ip_address ≡ false)
  unfolding network_setup_container
  network_setup_container-Succeeds c network mask t s =
      let net = c.config.network in
      let u = (network_create_bridge H I net.bridge_name net.subnet t).1 in
      let bridged = network_create_bridge-Succeeds net.bridge_name net.subnet network mask s t in
      let addressed = ensure_address H I net u in
      let (good, filled) = ensure_address_filled net network mask u s in
      let net' = ensure_gateway I addressed.0.1 in
      let linked =
        network_setup_veth-Succeeds H obliges c.config.id net'.bridge_name net'.ip_address
          net'.gateway c.init_pid addressed.1 in
      let kept = ap is_empty (ensure_gateway-ip_address I addressed.0.1) ∙ filled in
      elim (Bool-cases (ltb 0 (length net'.ports))) [
        | inl p ↦ rw (bridged, good, linked, p) (refl, kept)
        | inr p ↦ rw (bridged, good, linked, p) (refl, kept)
      ]
