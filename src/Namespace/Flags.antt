-- ===== src/Namespace/Flags.antt =====
-- The flags word for clone and the namespaces that it asks for.
use Prim.Native.Nat.{bit_and}
use cruntm.Base.{ℕ, ◌%◌, ◌^◌, ◌<◌, ◌≡◌, Bool, not, arith, ◌==◌}
use cruntm.Types.{NamespaceConfig}
use cruntm.Namespace.{
  clone_newns, clone_newcgroup, clone_newuts, clone_newipc, clone_newuser, clone_newpid,
  clone_newnet, namespace_get_clone_flags,
}

-- The kernel's test of a flag.
abbrev pub asks_for : ℕ → ℕ → Bool
asks_for flags flag = not (bit_and flags flag == 0)

-- What the kernel reads from a flags word.
unfoldable pub requested : ℕ → NamespaceConfig
requested flags = record {
  pid = asks_for flags clone_newpid;
  net = asks_for flags clone_newnet;
  mnt = asks_for flags clone_newns;
  uts = asks_for flags clone_newuts;
  ipc = asks_for flags clone_newipc;
  user = asks_for flags clone_newuser;
  cgroup = asks_for flags clone_newcgroup;
}

-- The flags word asks for exactly the namespaces that the configuration names, and it is a
-- non-negative `int` that is free in the bits of the exit signal.
pub requested-namespace_get_clone_flags :
    (c : NamespaceConfig)
    → (requested (namespace_get_clone_flags c) ≡ c)
      × (namespace_get_clone_flags c < 2 ^ 31)
      × (namespace_get_clone_flags c % 256 ≡ 0)
unfolding namespace_get_clone_flags requested
requested-namespace_get_clone_flags c = ground arith
