-- ===== src/Types.antt =====
-- include/cruntime.h: the limits, the error codes and the records that the components share. A
-- `char` array is the text it holds, an array with its count is a list, a pointer that may be NULL
-- is an `Option`.
use cruntm.Base.{ℕ, Bool, Option, List}
use cruntm.Base.Int.{ℤ}
use cruntm.Text.{Bytes}

abbrev pub max_container_name : ℕ
max_container_name = 256

abbrev pub max_path_len : ℕ
max_path_len = 4096

abbrev pub max_env_vars : ℕ
max_env_vars = 256

abbrev pub max_mounts : ℕ
max_mounts = 64

abbrev pub max_ports : ℕ
max_ports = 128

pub data ContainerState : Type 0 where
  created running paused stopped deleted : ContainerState

pub record NamespaceConfig : Type 0 where
  pub pid : Bool
  pub net : Bool
  pub mnt : Bool
  pub uts : Bool
  pub ipc : Bool
  pub user : Bool
  pub cgroup : Bool

pub record ResourceLimits : Type 0 where
  pub memory_limit : ℤ
  pub memory_swap : ℤ
  pub cpu_shares : ℤ
  pub cpu_quota : ℤ
  pub cpu_period : ℤ
  pub pids_limit : ℤ
  pub blkio_weight : ℤ

pub record MountPoint : Type 0 where
  pub source : Bytes
  pub target : Bytes
  pub fstype : Bytes
  pub flags : ℕ
  pub options : Bytes

pub record PortMapping : Type 0 where
  pub host_port : ℕ
  pub container_port : ℕ
  pub protocol : Bytes

-- `ports` is the first `num_ports` entries of the array.
pub record NetworkConfig : Type 0 where
  pub bridge_name : Bytes
  pub ip_address : Bytes
  pub gateway : Bytes
  pub subnet : Bytes
  pub ports : List PortMapping
  pub enable_nat : Bool

pub record ImageLayer : Type 0 where
  pub id : Bytes
  pub diff_path : Bytes
  pub size : ℕ

pub record ContainerImage : Type 0 where
  pub id : Bytes
  pub name : Bytes
  pub tag : Bytes
  pub layers : List ImageLayer
  pub rootfs_path : Bytes
  pub metadata_path : Bytes

-- `command`, `args` and `env` are pointers, none of them set by `memset`.
pub record ContainerConfig : Type 0 where
  pub id : Bytes
  pub name : Bytes
  pub hostname : Bytes
  pub command : Option Bytes
  pub args : Option (List Bytes)
  pub num_args : ℕ
  pub env : Option (List Bytes)
  pub num_env : ℕ
  pub rootfs : Bytes
  pub working_dir : Bytes
  pub namespaces : NamespaceConfig
  pub limits : ResourceLimits
  pub network : NetworkConfig
  pub mounts : List MountPoint
  pub privileged : Bool
  pub readonly_rootfs : Bool
  pub uid : ℕ
  pub gid : ℕ

pub record Container : Type 0 where
  pub config : ContainerConfig
  pub init_pid : ℤ
  pub state : ContainerState
  pub cgroup_path : Bytes
  pub netns_path : Bytes
  pub bundle_path : Bytes
  pub created_at : ℤ
  pub started_at : ℤ

pub record RuntimeCtx : Type 0 where
  pub runtime_dir : Bytes
  pub state_dir : Bytes
  pub image_dir : Bytes
  pub network_dir : Bytes
  pub use_systemd : Bool

-- CR_OK and the error codes.
pub data Code : Type 0 where
  ok error enomem einval enotfound eexist eperm esyscall : Code

-- The test `… == CR_OK`.
abbrev pub is_ok : Code → Bool
is_ok ok = Bool.true
is_ok _ = Bool.false

pub data LogLevel : Type 0 where
  debug info warn error_level fatal : LogLevel
