-- ===== src/Network/Ports.antt =====
-- Port forwarding: which rules are added, and that they are removed.
use mathlib.Core.List.{Sublistᴰ}
use cruntm.Base.{
  ◌≡◌, refl, ap, inl, inr, Bool, true, false, ◌&&◌, List, [], ◌∷◌, ◌++◌, append_assoc, arith, take,
  length, map, backwards, ltb, ◌==◌, Bool-cases, if◌then◌else◌,
}
use cruntm.Text.{Bytes, codes, snprintf}
use cruntm.Types.{PortMapping, ok}
use cruntm.Host.{Host, Trace, call, system, is_zero}
use cruntm.Host.Commands.{Log, commands}
use cruntm.Commands.{
  add_dnat_command, add_forward_command, delete_dnat_command, delete_forward_command,
}
use cruntm.Network.{exec_cmd, network_setup_port_forwarding, network_remove_port_forwarding}

-- An iptables command with its first " -A " turned into " -D ", which deletes the rule that the
-- command adds.
unfoldable pub undo : Bytes → Bytes
undo (a ∷ b ∷ c ∷ d ∷ rest) =
    if a == b' ' && b == b'-' && c == b'A' && d == b' '
    then b' ' ∷ b'-' ∷ b'D' ∷ b' ' ∷ rest
    else a ∷ undo (b ∷ c ∷ d ∷ rest)
undo s = s

pub undo-add_dnat_command :
    (ip : Bytes) (pm : PortMapping) → undo (add_dnat_command ip pm) ≡ delete_dnat_command ip pm
unfolding undo add_dnat_command delete_dnat_command codes snprintf take
undo-add_dnat_command ip pm = refl

pub undo-add_forward_command :
    (ip : Bytes) (pm : PortMapping)
    → undo (add_forward_command ip pm) ≡ delete_forward_command ip pm
unfolding undo add_forward_command delete_forward_command codes snprintf take
undo-add_forward_command ip pm = refl

-- What is asked of iptables for the ports: the rule to forward a port, and the rule to let it
-- through only if the first was taken.
data Forwarded (ip : Bytes) : List PortMapping → Log → Type 0 where
  none_left : Forwarded ip [] []
  not_taken :
      {pm : PortMapping} {rest : List PortMapping} {log : Log}
      → Forwarded ip rest log
      → Forwarded ip (pm ∷ rest) ((add_dnat_command ip pm, false) ∷ log)
  taken :
      {pm : PortMapping} {rest : List PortMapping} {log : Log} (s : Bool)
      → Forwarded ip rest log
      → Forwarded ip
          (pm ∷ rest)
          ((add_dnat_command ip pm, true) ∷ (add_forward_command ip pm, s) ∷ log)

-- The commands that delete both rules of every port.
unfoldable pub deletions : Bytes → List PortMapping → List Bytes
deletions ip [] = []
deletions ip (pm ∷ rest) =
    delete_dnat_command ip pm ∷ delete_forward_command ip pm ∷ deletions ip rest

abbrev pub texts : Log → List Bytes
texts [] = []
texts ((cmd, s) ∷ log) = cmd ∷ texts log

pub texts_concat :
    (log : Log) (cmd : Bytes) (s : Bool) → texts (log ++ (cmd, s) ∷ []) ≡ texts log ++ cmd ∷ []
texts_concat [] cmd s = refl
texts_concat ((c, b) ∷ log) cmd s = ap (◌∷◌ c) (texts_concat log cmd s)

pub deletions_of_none :
    (ip : Bytes) (ports : List PortMapping) → ltb 0 (length ports) ≡ false → deletions ip ports ≡ []
unfolding deletions
deletions_of_none ip [] h = refl
deletions_of_none ip (pm ∷ rest) h = ground arith

module _ (H : Host) where
  -- For each port in order the rule that forwards it is asked for, and the rule that lets it through
  -- only if the first was taken. A port that cannot be forwarded does not stop the others, and the
  -- code is CR_OK in any case.
  network_setup_port_forwarding-Forwarded :
      (ip : Bytes) (ports : List PortMapping) (t : Trace)
      → (log : Log) × (commands (network_setup_port_forwarding H ip ports t).1
          ≡ backwards log ++ commands t)
        × Forwarded ip ports log
        × ((network_setup_port_forwarding H ip ports t).0 ≡ ok)
  unfolding network_setup_port_forwarding exec_cmd commands backwards
  network_setup_port_forwarding-Forwarded ip [] t = ([], refl, none_left, refl)
  network_setup_port_forwarding-Forwarded ip (pm ∷ rest) t =
      let dnat = add_dnat_command ip pm in
      let forward = add_forward_command ip pm in
      let t₁ = (call H (system dnat) t).1 in
      let t₂ = (call H (system forward) t₁).1 in
      elim (Bool-cases (is_zero (H.answer t (system dnat)))) [
        | inl z ↦
            let (log, e, f, g) = network_setup_port_forwarding-Forwarded ip rest t₂ in
            let s = is_zero (H.answer t₁ (system forward)) in
            (
              (dnat, true) ∷ (forward, s) ∷ log,
              ground (
                arith,
                e,
                append_assoc (backwards log) ((forward, s) ∷ []) ((dnat, true) ∷ commands t),
                append_assoc (backwards log ++ (forward, s) ∷ []) ((dnat, true) ∷ []) (commands t),
              ),
              taken s f,
              ground (arith, g),
            )
        | inr z ↦
            let (log, e, f, g) = network_setup_port_forwarding-Forwarded ip rest t₁ in
            (
              (dnat, false) ∷ log,
              ground (arith, e, append_assoc (backwards log) ((dnat, false) ∷ []) (commands t)),
              not_taken f,
              ground (arith, g),
            )
      ]

  -- The removal asks for the deletion of both rules of every port, whatever the host answers.
  pub network_remove_port_forwarding-deletions :
      (ip : Bytes) (ports : List PortMapping) (t : Trace)
      → (log : Log) × (commands (network_remove_port_forwarding H ip ports t).1
          ≡ backwards log ++ commands t)
        × (texts log ≡ deletions ip ports)
        × ((network_remove_port_forwarding H ip ports t).0 ≡ ok)
  unfolding network_remove_port_forwarding exec_cmd commands backwards deletions
  network_remove_port_forwarding-deletions ip [] t = ([], refl, refl, refl)
  network_remove_port_forwarding-deletions ip (pm ∷ rest) t =
      let dnat = delete_dnat_command ip pm in
      let forward = delete_forward_command ip pm in
      let t₁ = (call H (system dnat) t).1 in
      let t₂ = (call H (system forward) t₁).1 in
      let (log, e, f, g) = network_remove_port_forwarding-deletions ip rest t₂ in
      let s₁ = is_zero (H.answer t (system dnat)) in
      let s₂ = is_zero (H.answer t₁ (system forward)) in
      (
        (dnat, s₁) ∷ (forward, s₂) ∷ log,
        ground (
          arith,
          e,
          append_assoc (backwards log) ((forward, s₂) ∷ []) ((dnat, s₁) ∷ commands t),
          append_assoc (backwards log ++ (forward, s₂) ∷ []) ((dnat, s₁) ∷ []) (commands t),
        ),
        ground (arith, f),
        g,
      )

Forwarded-undo :
    {ip : Bytes} {ports : List PortMapping} {log : Log}
    → Forwarded ip ports log
    → Sublistᴰ (map undo (texts log)) (deletions ip ports)
unfolding deletions
Forwarded-undo none_left = Sublistᴰ.slnil
Forwarded-undo {ip} (not_taken {pm} f) =
    Sublistᴰ.cons-cons (undo-add_dnat_command ip pm) (Sublistᴰ.cons (Forwarded-undo f))
Forwarded-undo {ip} (taken {pm} s f) =
    Sublistᴰ.cons-cons (undo-add_dnat_command ip pm)
      (Sublistᴰ.cons-cons (undo-add_forward_command ip pm) (Forwarded-undo f))

-- Every rule that the set-up asked for is deleted again by the removal, in the same order, whatever
-- either host answers, and also where a command is cut by its buffer.
pub remove-setup-undo :
    (H K : Host) (ip : Bytes) (ports : List PortMapping) (t u : Trace)
    → (added : Log) × (removed : Log) × (commands (network_setup_port_forwarding H ip ports t).1
        ≡ backwards added ++ commands t)
      × (commands (network_remove_port_forwarding K ip ports u).1 ≡ backwards removed ++ commands u)
      × Sublistᴰ (map undo (texts added)) (texts removed)
remove-setup-undo H K ip ports t u =
    let (added, e, f, g) = network_setup_port_forwarding-Forwarded H ip ports t in
    let (removed, e', f', g') = network_remove_port_forwarding-deletions K ip ports u in
    (added, removed, e, e', rw f' (Forwarded-undo f))
