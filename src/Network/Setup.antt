-- ===== src/Network/Setup.antt =====
-- network_setup_container and network_cleanup_container.
use cruntm.Base.{
  ◌+◌, ◌%◌, ◌^◌, Option-cases, none, some, false, ◌≡◌, refl, ap, ◌∙◌, ◌⊎◌, inl, inr, true, [], ◌∷◌,
  ◌++◌, arith, length, backwards, backwards_concat, ltb, Bool-cases,
}
use cruntm.Text.{Bytes, strncpy, strchr}
use cruntm.Types.{NetworkConfig, Container, ok}
use cruntm.Host.{Host, Trace, system, is_zero}
use cruntm.Host.Commands.{Log, commands}
use cruntm.Commands.{veth_host, delete_link_command}
use cruntm.Network.{
  Inet, is_empty, gateway_of, add_address, network_allocate_ip, bare_address, exec_cmd,
  network_remove_port_forwarding, network_cleanup_container, ensure_address, ensure_gateway,
  with_network, network_create_bridge, network_setup_container,
}
use cruntm.Network.Ports.{
  texts, texts_concat, deletions, deletions_of_none, network_remove_port_forwarding-deletions,
}

-- The gateway behind the set-up: the one that was given; for a subnet "network/mask" without one, the
-- address that follows the network's, modulo 2 ^ 32; and none where there is none and the subnet has
-- no slash.
abbrev pub HasGateway : Inet → NetworkConfig → Bytes → Type 0
HasGateway I net gateway =
    ((is_empty net.gateway ≡ false) × (gateway ≡ net.gateway))
    ⊎ ((net.gateway ≡ [])
        × ((network : Bytes) × (mask : Bytes) × (strchr b'/' (strncpy 64 net.subnet)
              ≡ some (network, mask))
            × (gateway ≡ I.print ((I.parse network + 1) % 2 ^ 32))))
    ⊎ ((net.gateway ≡ []) × (strchr b'/' (strncpy 64 net.subnet) ≡ none) × (gateway ≡ []))

is_empty_nil : (s : Bytes) → is_empty s ≡ true → s ≡ []
is_empty_nil [] h = refl
is_empty_nil (c ∷ s) h = absurd (ground arith)

module _ (I : Inet) where
  ensure_gateway-HasGateway :
      (net : NetworkConfig) → HasGateway I net (ensure_gateway I net).gateway
  unfolding ensure_gateway gateway_of add_address
  ensure_gateway-HasGateway net = elim (Bool-cases (is_empty net.gateway)) [
    | inr e ↦ rw e (inl (refl, refl))
    | inl e ↦
        let nil = is_empty_nil net.gateway e in
        elim (Option-cases (strchr b'/' (strncpy 64 net.subnet))) [
          | inl s ↦ inr (inr (nil, s, rw (e, s) nil))
          | inr ((network, mask), s) ↦ inr (inl (nil, (network, mask, s, rw (e, s) refl)))
        ]
  ]

  ensure_gateway-ip_address :
      (net : NetworkConfig) → (ensure_gateway I net).ip_address ≡ net.ip_address
  unfolding ensure_gateway
  ensure_gateway-ip_address net = ground arith

  ensure_gateway_frame :
      (net : NetworkConfig)
      → let net' = ensure_gateway I net in
        net' ≡ record net { ip_address = net'.ip_address; gateway = net'.gateway }
  unfolding ensure_gateway
  ensure_gateway_frame net = ground arith

module _ (H : Host) (I : Inet) where
  ensure_lem :
      (net : NetworkConfig) (u : Trace)
      → let net' = ensure_gateway I (ensure_address H I net u).0.1 in
        (net' ≡ record net { ip_address = net'.ip_address; gateway = net'.gateway })
        × ((is_empty net.ip_address ≡ true) ⊎ (net'.ip_address ≡ net.ip_address))
        × HasGateway I net net'.gateway
  unfolding ensure_address
  ensure_lem net u = elim (Bool-cases (is_empty net.ip_address)) [
    | inl e ↦
        let given = (network_allocate_ip H I net.subnet 64 net.ip_address u).0.1 in
        rw e (
          ensure_gateway_frame I (record net { ip_address = given }),
          inl refl,
          ensure_gateway-HasGateway I (record net { ip_address = given }),
        )
    | inr e ↦ rw e (
      ensure_gateway_frame I net,
      inr (ensure_gateway-ip_address I net),
      ensure_gateway-HasGateway I net,
    )
  ]

  network_setup_container-eq :
      (c : Container) (t : Trace)
      → (network_setup_container H I c t).0.0 ≡ ok
      → let u =
          (network_create_bridge H I c.config.network.bridge_name c.config.network.subnet t).1 in
        (network_setup_container H I c t).0.1
        ≡ with_network c (ensure_gateway I (ensure_address H I c.config.network u).0.1)
  unfolding network_setup_container
  network_setup_container-eq c t h = ground arith

  -- Whenever the function returns CR_OK, a gateway or an address that was given stays; a missing gateway
  -- becomes, for a subnet that reads "network/mask" in its first 64 bytes, the address that follows the
  -- network's modulo 2 ^ 32, and stays missing where these bytes have no slash; all else of the
  -- container stays.
  pub network_setup_container_frame :
      (c : Container) (t : Trace)
      → (network_setup_container H I c t).0.0 ≡ ok
      → let net = c.config.network in
        let c' = (network_setup_container H I c t).0.1 in
        let net' = c'.config.network in
        (c' ≡ with_network c (record net { ip_address = net'.ip_address; gateway = net'.gateway }))
        × ((is_empty net.ip_address ≡ true) ⊎ (net'.ip_address ≡ net.ip_address))
        × HasGateway I net net'.gateway
  network_setup_container_frame c t h =
      let u =
        (network_create_bridge H I c.config.network.bridge_name c.config.network.subnet t).1 in
      let (frame, address, gateway) = ensure_lem c.config.network u in
      rw (network_setup_container-eq c t h) (ap (with_network c) frame, address, gateway)

module _ (H : Host) where
  -- The cleanup deletes both rules of every port, and then the veth pair by the name under which the
  -- set-up made it. Its result is CR_OK whatever the host answers.
  network_cleanup_container-deletions :
      (c : Container) (t : Trace)
      → (log : Log) × (commands (network_cleanup_container H c t).1 ≡ backwards log ++ commands t)
        × (texts log
            ≡ deletions (bare_address c.config.network.ip_address) c.config.network.ports
              ++ delete_link_command (veth_host c.config.id) ∷ [])
        × ((network_cleanup_container H c t).0 ≡ ok)
  unfolding network_cleanup_container exec_cmd commands backwards
  network_cleanup_container-deletions c t =
      let net = c.config.network in
      let ip = bare_address net.ip_address in
      let delete = delete_link_command (veth_host c.config.id) in
      elim (Bool-cases (ltb 0 (length net.ports))) [
        | inl some_ports ↦
            let (log, e, d, g) = network_remove_port_forwarding-deletions H ip net.ports t in
            let u = (network_remove_port_forwarding H ip net.ports t).1 in
            let s = is_zero (H.answer u (system delete)) in
            (
              log ++ (delete, s) ∷ [],
              ground (arith, e, backwards_concat log (delete, s)),
              texts_concat log delete s ∙ rw d refl,
              ground arith,
            )
        | inr no_ports ↦
            let s = is_zero (H.answer t (system delete)) in
            (
              (delete, s) ∷ [],
              ground arith,
              ground (arith, deletions_of_none ip net.ports no_ports),
              ground arith,
            )
      ]
