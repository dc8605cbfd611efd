-- ===== src/Main/Ports.antt =====
-- A list of published ports: from the options of run to the configuration.
use cruntm.Base.{
  ℕ, ◌%◌, ◌^◌, ◌<◌, ◌≡◌, refl, inl, inr, some, List, [], ◌∷◌, ◌++◌, arith, take, length, map, All,
  ltb, Bool-cases,
}
use cruntm.Text.{Bytes, strncpy, decimal}
use cruntm.Text.Laws.{strchr-append}
use cruntm.Types.{PortMapping, max_ports}
use cruntm.Utils.{Doubles}
use cruntm.Main.{
  Parsed, letter, Settings, go, port_behind_colon, parse_port, add_port, apply_letter, apply_option,
  apply_options, default_settings,
}
use cruntm.Main.Repeated.{Array, Adds, apply_options-Adds}
use cruntm.Main.Publish.{read_wrapped, decimal-Lacks, colon_ok, slash_ok}

-- What a user asks for by `-p host:container/protocol`.
pub record Request : Type 0 where
  pub host : ℕ
  pub container : ℕ
  pub protocol : Bytes

abbrev port_text : Request → Bytes
port_text r = decimal r.host ++ b':' ∷ (decimal r.container ++ b'/' ∷ r.protocol)

abbrev pub publish : Request → Parsed
publish r = letter b'p' (port_text r)

-- The ports are reduced modulo 2 ^ 16, and of the protocol seven bytes are kept.
abbrev pub granted : Request → PortMapping
granted r = record {
  host_port = r.host % 2 ^ 16;
  container_port = r.container % 2 ^ 16;
  protocol = strncpy 7 r.protocol;
}

abbrev pub with_ports : List PortMapping → Settings → Settings
with_ports ports s =
    let c = s.config in
    record s { config = record c { network = record (c.network) { ports = ports } } }

-- The numbers fit the `int` of atoi.
abbrev pub FitsInt : Request → Type 0
FitsInt r = (r.host < 2 ^ 31) × (r.container < 2 ^ 31)

parse_port-port_text : (r : Request) → parse_port (port_text r) ≡ some (granted r)
unfolding parse_port port_behind_colon
parse_port-port_text r =
    rw
      (
        strchr-append b':' (decimal r.host) (decimal r.container ++ b'/' ∷ r.protocol)
            (decimal-Lacks b':' r.host colon_ok),
        strchr-append b'/' (decimal r.container) r.protocol
            (decimal-Lacks b'/' r.container slash_ok),
        parse_port,
        port_behind_colon,
      )
      (rw (read_wrapped r.host, read_wrapped r.container) refl)

port_array : Array PortMapping
port_array = record {
  entries = λ s. s.config.network.ports;
  with_entries = with_ports;
  entries-with_entries = λ xs s. refl;
  with_entries_twice = λ xs ys s. refl;
  with_entries-entries = λ s. refl;
}

module _ (D : Doubles) where
  publish-Adds : (r : Request) → Adds D port_array max_ports publish granted r
  unfolding apply_option apply_letter add_port port_array
  publish-Adds r s = elim (Bool-cases (ltb (length s.config.network.ports) max_ports)) [
    | inl e ↦ rw (parse_port-port_text r, e, add_port) refl
    | inr e ↦ rw (parse_port-port_text r, e, add_port) refl
  ]

  requests-Adds : (rs : List Request) → All (Adds D port_array max_ports publish granted) rs
  requests-Adds [] = tt
  requests-Adds (r ∷ rs) = (publish-Adds r, requests-Adds rs)

  -- Any number of options `-p host:container/protocol`, with numbers that fit an int, publish the
  -- ports in their order: the first 128 of them, each number reduced modulo 2 ^ 16 and each protocol
  -- cut to seven bytes. All else of the configuration stays, and the loop goes on.
  pub apply_options-publish :
      (rs : List Request) (id : Bytes) (uid gid : ℕ)
      → All FitsInt rs
      → apply_options D (map publish rs) (default_settings id uid gid)
        ≡ go (with_ports (take max_ports (map granted rs)) (default_settings id uid gid))
  unfolding default_settings port_array
  apply_options-publish rs id uid gid h =
      apply_options-Adds D port_array max_ports publish granted rs (default_settings id uid gid)
        (omega arith) (requests-Adds rs)
