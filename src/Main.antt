-- ===== src/Main.antt =====
-- src/main.c: the options of `run`, the configuration that they describe, and the commands.
pub mod Publish
pub mod Repeated
pub mod Ports
pub mod Volumes
pub mod Options
pub mod Run
pub mod Program
pub mod Starts
pub mod Crashes
use cruntm.Base.{
  ℕ, zero, suc, ◌+◌, ◌-◌, ◌*◌, ◌/◌, ◌%◌, ◌^◌, ◌≤◌, ◌<◌, ◌≡◌, refl, sym, ap, ◌∙◌, ◌≢◌, ◌⊎◌, ◌↔◌, inl,
  inr, Bool, true, false, not, ◌&&◌, ◌||◌, Option, none, some, List, [], ◌∷◌, ◌++◌, append-nil,
  append_assoc, arith, take, length, map, length-append, length-take-le, take-eq_self, All,
  backwards, ltb, leb, ◌==◌, ltb→lt, leb→le, ==_iff, Bool-cases, if◌then◌else◌,
}
use cruntm.Base.Int.{ℤ, pos, negsuc}
use cruntm.Text.{Bytes, codes, snprintf, strncpy, strchr, atoi, to_uint16}
use cruntm.Text.Laws.{equal}
use cruntm.Types.{
  Code, is_ok, NamespaceConfig, ResourceLimits, MountPoint, PortMapping, NetworkConfig,
  ContainerConfig, Container, RuntimeCtx, LogLevel, max_ports, max_mounts, max_env_vars,
  max_container_name, max_path_len,
}
use cruntm.Host.{
  Host, M, pure, ◌>>=◌, ◌>>◌, call, getuid, getgid, geteuid, waitpid, print_out, print_err, result,
  Trace,
}
use cruntm.Utils.{generate_id, parse_size, Doubles}
use cruntm.Namespace.{ms_bind}

-- What getopt_long of the C library gives for `run`: a letter with its argument, a long option that
-- has no letter, or `?`.
pub data Parsed : Type 0 where
  letter : ℕ → Bytes → Parsed
  long : Bytes → Bytes → Parsed
  unknown : Parsed

-- What the loop over the options has filled in.
pub record Settings : Type 0 where
  pub config : ContainerConfig
  pub detach : Bool
  pub auto_remove : Bool

-- The loop goes on, `run` returns 1, or the program writes through a pointer that is NULL.
pub data Outcome : Type 0 where
  go : Settings → Outcome
  usage_error : Outcome
  fault : Outcome

-- The part of a published port behind its colon.
unfoldable pub port_behind_colon : ℕ → Bytes → PortMapping
port_behind_colon host_port text = elim (strchr b'/' text) [
  | some (number, proto) ↦ record {
    host_port = host_port;
    container_port = to_uint16 (atoi number);
    protocol = strncpy 7 proto;
  }
  | none ↦ record {
    host_port = host_port;
    container_port = to_uint16 (atoi text);
    protocol = codes "tcp";
  }
]

unfoldable pub parse_port : Bytes → Option PortMapping
parse_port arg = elim (strchr b':' arg) [
  | some (host, rest) ↦ some (port_behind_colon (to_uint16 (atoi host)) rest)
  | none ↦ none
]

unfoldable pub add_port : Bytes → ContainerConfig → ContainerConfig
add_port arg c = elim (parse_port arg) [
  | some pm ↦
      if ltb (length c.network.ports) max_ports
      then record c { network = record (c.network) { ports = c.network.ports ++ pm ∷ [] } }
      else c
  | none ↦ c
]

unfoldable pub bind_volume : Bytes → Bytes → MountPoint
bind_volume source target = record {
  source = strncpy (max_path_len - 1) source;
  target = strncpy (max_path_len - 1) target;
  fstype = codes "bind";
  flags = ms_bind;
  options = [];
}

unfoldable pub add_volume : Bytes → ContainerConfig → ContainerConfig
add_volume arg c =
    if ltb (length c.mounts) max_mounts
    then elim (strchr b':' arg) [
      | some (source, target) ↦ record c { mounts = c.mounts ++ bind_volume source target ∷ [] }
      | none ↦ c
    ]
    else c

-- The environment is an array that nothing has allocated: `config.env[config.num_env++] = …`.
unfoldable pub add_env : Bytes → Settings → Outcome
add_env arg s =
    if ltb s.config.num_env max_env_vars
    then elim s.config.env [
      | none ↦ fault
      | some vars ↦ go (record s {
        config = record (s.config) {
          env = some (vars ++ arg ∷ []);
          num_env = s.config.num_env + 1;
        };
      })
    ]
    else go s

abbrev pub with_config : Settings → ContainerConfig → Outcome
with_config s c = go (record s { config = c })

abbrev pub with_limits : Settings → ResourceLimits → Outcome
with_limits s l = with_config s (record (s.config) { limits = l })

abbrev pub with_net : Settings → NetworkConfig → Outcome
with_net s net = with_config s (record (s.config) { network = net })

unfoldable pub apply_long : Bytes → Bytes → Settings → Outcome
apply_long name arg s =
    if equal name (codes "rm")
    then go (record s { auto_remove = true })
    else if equal name (codes "network")
    then with_net s (record (s.config.network) { bridge_name = strncpy 63 arg })
    else if equal name (codes "ip")
    then with_net s (record (s.config.network) { ip_address = strncpy 63 arg })
    else go s

module _ (D : Doubles) where
  unfoldable pub apply_letter : ℕ → Bytes → Settings → Outcome
  apply_letter opt arg s =
      let c = s.config in
      if opt == b'n'
      then with_config s (record c { name = strncpy (max_container_name - 1) arg })
      else if opt == b'h'
      then with_config s (record c { hostname = strncpy 255 arg })
      else if opt == b'm'
      then with_limits s (record (c.limits) { memory_limit = parse_size D arg })
      else if opt == b'c'
      then with_limits s (record (c.limits) { cpu_quota = D.scaled (D.strtod arg).0 100000 })
      else if opt == b'p'
      then with_config s (add_port arg c)
      else if opt == b'v'
      then with_config s (add_volume arg c)
      else if opt == b'e'
      then add_env arg s
      else if opt == b'w'
      then with_config s (record c { working_dir = strncpy (max_path_len - 1) arg })
      else if opt == b'd'
      then go (record s { detach = true })
      else usage_error

  unfoldable pub apply_option : Parsed → Settings → Outcome
  apply_option (letter opt arg) s = apply_letter opt arg s
  apply_option (long name arg) s = apply_long name arg s
  apply_option unknown s = usage_error

  -- The loop over what getopt_long gives.
  unfoldable pub apply_options : List Parsed → Settings → Outcome
  apply_options [] s = go s
  apply_options (p ∷ ps) s = elim (apply_option p s) [
    | go s' ↦ apply_options ps s'
    | usage_error ↦ usage_error
    | fault ↦ fault
  ]

-- The configuration in front of the loop.
unfoldable pub default_settings : Bytes → ℕ → ℕ → Settings
default_settings id uid gid = record {
  config = record {
    id = id;
    name = [];
    hostname = codes "container";
    command = none;
    args = none;
    num_args = 0;
    env = none;
    num_env = 0;
    rootfs = [];
    working_dir = [];
    namespaces = record {
      pid = true;
      net = true;
      mnt = true;
      uts = true;
      ipc = true;
      user = false;
      cgroup = true;
    };
    limits = record {
      memory_limit = negsuc 0;
      memory_swap = pos 0;
      cpu_shares = pos 1024;
      cpu_quota = negsuc 0;
      cpu_period = pos 100000;
      pids_limit = negsuc 0;
      blkio_weight = pos 0;
    };
    network = record {
      bridge_name = codes "cr0";
      ip_address = [];
      gateway = [];
      subnet = codes "172.17.0.0/16";
      ports = [];
      enable_nat = false;
    };
    mounts = [];
    privileged = false;
    readonly_rootfs = false;
    uid = uid;
    gid = gid;
  };
  detach = false;
  auto_remove = false;
}
