-- ===== src/Main/Options.antt =====
-- The options of run never overrun the configuration, and what `--env` does.
use cruntm.Base.{
  ℕ, ◌-◌, ◌≤◌, ◌<◌, ◌≡◌, refl, ◌∙◌, ◌⊎◌, inl, inr, none, List, [], ◌∷◌, ◌++◌, arith, length,
  length-append, length-take-le, All, ltb, ltb→lt, Bool-cases,
}
use mathlib.Core.Path.{subst}
use cruntm.Base.{Option-cases, All-append}
use cruntm.Text.{Bytes, codes, strncpy, strchr, atoi, to_uint16}
use cruntm.Types.{
  ContainerConfig, NetworkConfig, MountPoint, PortMapping, max_ports, max_mounts, max_path_len,
  max_container_name,
}
use cruntm.Utils.{Doubles}
use cruntm.Main.{
  Parsed, letter, long, unknown, Settings, Outcome, go, usage_error, fault, port_behind_colon,
  parse_port, add_port, bind_volume, add_volume, add_env, apply_long, apply_letter, apply_option,
  apply_options, default_settings,
}

-- The texts of a port and of a volume leave room for the NUL.
abbrev pub PortFits : PortMapping → Type 0
PortFits pm = length pm.protocol < 8

abbrev pub MountFits : MountPoint → Type 0
MountFits mp = (length mp.source < max_path_len) × (length mp.target < max_path_len)

abbrev pub NetworkFits : NetworkConfig → Type 0
NetworkFits net =
    (length net.bridge_name < 64)
    × (length net.ip_address < 64)
    × (length net.ports ≤ max_ports)
    × All PortFits net.ports

abbrev pub TextsFit : ContainerConfig → Type 0
TextsFit c =
    (length c.name < max_container_name)
    × (length c.hostname < 256)
    × (length c.working_dir < max_path_len)

abbrev pub MountsFit : List MountPoint → Type 0
MountsFit mounts = (length mounts ≤ max_mounts) × All MountFits mounts

-- No environment has been allocated.
abbrev pub HasNoEnv : ContainerConfig → Type 0
HasNoEnv c = (c.env ≡ none) × (c.num_env ≡ 0)

-- Every array and every text that the options write lies inside its field.
abbrev pub IsBounded : ContainerConfig → Type 0
IsBounded c = TextsFit c × NetworkFits c.network × MountsFit c.mounts × HasNoEnv c

length-strncpy-le : (n : ℕ) (s : Bytes) → length (strncpy n s) ≤ n
unfolding strncpy
length-strncpy-le n s = length-take-le n s

-- The outcome, where the loop goes on, is bounded.
abbrev GoesOn : Outcome → Type 0
GoesOn (go s) = IsBounded s.config
GoesOn usage_error = Unit {0}
GoesOn fault = Unit {0}

port_behind_colon-PortFits : (host : ℕ) (s : Bytes) → PortFits (port_behind_colon host s)
unfolding port_behind_colon codes
port_behind_colon-PortFits host s = elim (Option-cases (strchr b'/' s)) [
  | inl e ↦ rw (e, port_behind_colon) (omega arith)
  | inr ((number, proto), e) ↦ rw (e, port_behind_colon) (omega (arith, length-strncpy-le 7 proto))
]

add_port-NetworkFits :
    (host rest : Bytes) (net : NetworkConfig)
    → NetworkFits net
    → length net.ports < max_ports
    → NetworkFits
        (record net { ports = net.ports ++ port_behind_colon (to_uint16 (atoi host)) rest ∷ [] })
add_port-NetworkFits host rest net (bridge, ip, ports, protocols) room =
    let pm = port_behind_colon (to_uint16 (atoi host)) rest in
    (
      bridge,
      ip,
      omega (arith, length-append net.ports (pm ∷ [])),
      All-append PortFits net.ports (pm ∷ []) protocols
          (port_behind_colon-PortFits (to_uint16 (atoi host)) rest, tt),
    )

add_port-IsBounded : (arg : Bytes) (c : ContainerConfig) → IsBounded c → IsBounded (add_port arg c)
unfolding add_port parse_port
add_port-IsBounded arg c (texts, net, mounts, env) = elim (Option-cases (strchr b':' arg)) [
  | inl e ↦ rw (e, add_port, parse_port) (texts, net, mounts, env)
  | inr ((host, behind), e) ↦ elim (Bool-cases (ltb (length c.network.ports) max_ports)) [
    | inl room ↦
        rw (e, room, add_port, parse_port)
          (texts, add_port-NetworkFits host behind c.network net (ltb→lt _ _ room), mounts, env)
    | inr full ↦ rw (e, full, add_port, parse_port) (texts, net, mounts, env)
  ]
]

add_volume-MountsFit :
    (source target : Bytes) (mounts : List MountPoint)
    → MountsFit mounts
    → length mounts < max_mounts
    → MountsFit (mounts ++ bind_volume source target ∷ [])
unfolding bind_volume
add_volume-MountsFit source target mounts (size, paths) room = (
  omega (arith, length-append mounts (bind_volume source target ∷ [])),
  All-append MountFits mounts (bind_volume source target ∷ []) paths (
    (
      omega (arith, length-strncpy-le (max_path_len - 1) source),
      omega (arith, length-strncpy-le (max_path_len - 1) target),
    ),
    tt,
  ),
)

add_volume-IsBounded :
    (arg : Bytes) (c : ContainerConfig) → IsBounded c → IsBounded (add_volume arg c)
unfolding add_volume
add_volume-IsBounded arg c (texts, net, mounts, env) =
    elim (Bool-cases (ltb (length c.mounts) max_mounts)) [
      | inl room ↦ elim (Option-cases (strchr b':' arg)) [
        | inl e ↦ rw (room, e, add_volume) (texts, net, mounts, env)
        | inr ((source, target), e) ↦
            rw (room, e, add_volume)
              (
                texts,
                net,
                add_volume-MountsFit source target c.mounts mounts (ltb→lt _ _ room),
                env,
              )
      ]
      | inr full ↦ rw (full, add_volume) (texts, net, mounts, env)
    ]

apply_long-GoesOn :
    (name arg : Bytes) (s : Settings) → IsBounded s.config → GoesOn (apply_long name arg s)
unfolding apply_long
apply_long-GoesOn name arg s h = ground (arith, length-strncpy-le 63 arg)

add_env_fault : (arg : Bytes) (s : Settings) → IsBounded s.config → add_env arg s ≡ fault
unfolding add_env
add_env_fault arg s (texts, net, mounts, (no_env, no_num_env)) =
    rw (no_num_env, no_env, add_env) refl

pub Outcome-cases : (o : Outcome) → ((s : Settings) × (o ≡ go s)) ⊎ (o ≡ usage_error) ⊎ (o ≡ fault)
Outcome-cases (go s) = inl (s, refl)
Outcome-cases usage_error = inr (inl refl)
Outcome-cases fault = inr (inr refl)

module _ (D : Doubles) where
  apply_letter-GoesOn :
      (opt : ℕ) (arg : Bytes) (s : Settings)
      → IsBounded s.config
      → GoesOn (apply_letter D opt arg s)
  unfolding apply_letter
  apply_letter-GoesOn opt arg s h = ground (
    arith,
    length-strncpy-le 255 arg,
    length-strncpy-le 4095 arg,
    add_port-IsBounded arg s.config,
    add_volume-IsBounded arg s.config,
    add_env_fault arg s,
  )

  apply_option-GoesOn :
      (p : Parsed) (s : Settings) → IsBounded s.config → GoesOn (apply_option D p s)
  unfolding apply_option
  apply_option-GoesOn (letter opt arg) s h = apply_letter-GoesOn opt arg s h
  apply_option-GoesOn (long name arg) s h = apply_long-GoesOn name arg s h
  apply_option-GoesOn unknown s h = tt

  apply_options-GoesOn :
      (ps : List Parsed) (s : Settings) → IsBounded s.config → GoesOn (apply_options D ps s)
  unfolding apply_options
  apply_options-GoesOn [] s h = h
  apply_options-GoesOn (p ∷ ps) s h = elim (Outcome-cases (apply_option D p s)) [
    | inl (s', e) ↦
        rw (e, apply_options)
          (apply_options-GoesOn ps s' (subst GoesOn e (apply_option-GoesOn p s h)))
    | inr (inl e) ↦ rw (e, apply_options) tt
    | inr (inr e) ↦ rw (e, apply_options) tt
  ]

  apply_options-append :
      (before after : List Parsed) (s s' : Settings)
      → apply_options D before s ≡ go s'
      → apply_options D (before ++ after) s ≡ apply_options D after s'
  unfolding apply_options
  apply_options-append [] after s s' h = ground arith
  apply_options-append (p ∷ before) after s s' h = elim (Outcome-cases (apply_option D p s)) [
    | inl (s₁, e) ↦
        rw (e, apply_options) (apply_options-append before after s₁ s' (rw (e, apply_options) at h))
    | inr (inl e) ↦ absurd (ground arith)
    | inr (inr e) ↦ absurd (ground arith)
  ]

default_settings-IsBounded :
    (id : Bytes) (uid gid : ℕ) → IsBounded (default_settings id uid gid).config
unfolding default_settings codes
default_settings-IsBounded id uid gid = ground arith

-- Whatever options are given, in whatever number and of whatever length: where the loop over them
-- ends well, every text is shorter than its field, and there are no more ports and volumes than
-- their arrays hold.
pub apply_options-IsBounded :
    (D : Doubles) (ps : List Parsed) (id : Bytes) (uid gid : ℕ) (s : Settings)
    → apply_options D ps (default_settings id uid gid) ≡ go s
    → IsBounded s.config
apply_options-IsBounded D ps id uid gid s h = subst GoesOn h (
    apply_options-GoesOn D ps (default_settings id uid gid) (default_settings-IsBounded id uid gid))

-- The first `--env` behind options that are taken makes the program write through NULL.
pub apply_options_env :
    (D : Doubles) (before after : List Parsed) (arg id : Bytes) (uid gid : ℕ) (s : Settings)
    → apply_options D before (default_settings id uid gid) ≡ go s
    → apply_options D (before ++ letter b'e' arg ∷ after) (default_settings id uid gid) ≡ fault
unfolding apply_options apply_option apply_letter
apply_options_env D before after arg id uid gid s h =
    apply_options-append D before (letter b'e' arg ∷ after) (default_settings id uid gid) s h
    ∙ rw
        (
          add_env_fault arg s (apply_options-IsBounded D before id uid gid s h),
          apply_options,
          apply_option,
          apply_letter,
        )
        refl
