-- ===== src/Namespace/Users.antt =====
-- The user mapping, and the descriptors of namespace.c.
use cruntm.Base.{
  ℕ, ◌-◌, ◌^◌, ◌<◌, ◌≡◌, refl, sym, ltb, if◌then◌else◌, Option, none, some, ◌∷◌, ◌++◌, arith,
}
use cruntm.Base.Int.{ℤ}
use cruntm.Text.{Bytes, codes, decimal, print_int, to_int32}
use cruntm.Types.{ok}
use cruntm.Host.{Host, Trace, write_only}
use cruntm.Host.Files.{open_files, written, IsWritable}
use cruntm.Host.Keeps.{KeepsFiles}
use cruntm.Namespace.{
  deny_setgroups, write_map, map_line, namespace_setup_user, namespace_join, make_parent,
  namespace_persist,
}

-- What `%d` prints of a `uid_t`.
abbrev pub printed_id : ℕ → Bytes
printed_id id = if ltb id (2 ^ 31) then decimal id else b'-' ∷ decimal (2 ^ 32 - id)

map_line_lem : (id : ℕ) → id < 2 ^ 32 → map_line id ≡ codes "0 " ++ (printed_id id ++ codes " 1")
unfolding map_line to_int32 print_int
map_line_lem id h = ground arith

module _ (H : Host) where
  deny_setgroups-KeepsFiles : KeepsFiles (deny_setgroups H)
  unfolding deny_setgroups open_files
  deny_setgroups-KeepsFiles t = ground arith

  write_map-KeepsFiles : (p v : Bytes) → KeepsFiles (write_map H p v)
  unfolding write_map open_files
  write_map-KeepsFiles p v t = ground arith

  make_parent-KeepsFiles : (dir : Option Bytes) → KeepsFiles (make_parent H dir)
  unfolding make_parent open_files
  make_parent-KeepsFiles none t = refl
  make_parent-KeepsFiles (some d) t = refl

  namespace_setup_user-KeepsFiles : (uid gid : ℕ) → KeepsFiles (namespace_setup_user H uid gid)
  unfolding namespace_setup_user
  namespace_setup_user-KeepsFiles uid gid t =
      grind (arith, deny_setgroups-KeepsFiles, write_map-KeepsFiles)

  namespace_join-KeepsFiles : (p : Bytes) (n : ℕ) → KeepsFiles (namespace_join H p n)
  unfolding namespace_join open_files
  namespace_join-KeepsFiles p n t = ground arith

  namespace_persist-KeepsFiles : (pid : ℤ) (n p : Bytes) → KeepsFiles (namespace_persist H pid n p)
  unfolding namespace_persist open_files
  namespace_persist-KeepsFiles pid n p t = grind (arith, make_parent-KeepsFiles)

  pub namespace-KeepsFiles :
      (uid gid : ℕ) (pid : ℤ) (ns_type : ℕ) (ns_name path : Bytes)
      → KeepsFiles (namespace_setup_user H uid gid)
        × KeepsFiles (namespace_join H path ns_type)
        × KeepsFiles (namespace_persist H pid ns_name path)
  namespace-KeepsFiles uid gid pid ns_type ns_name path = (
    namespace_setup_user-KeepsFiles uid gid,
    namespace_join-KeepsFiles path ns_type,
    namespace_persist-KeepsFiles pid ns_name path,
  )

  write_map-written :
      IsWritable H
      → (p v : Bytes) (t : Trace)
      → ((write_map H p v t).0 ≡ ok) × (written (write_map H p v t).1 ≡ (p, v) ∷ written t)
  unfolding write_map written
  write_map-written w p v t =
      let (fd, opens) = w.opens t p write_only 0 in rw opens (rw (w.writes _ fd v) (ground arith))

  deny_setgroups-written :
      IsWritable H
      → (t : Trace)
      → written (deny_setgroups H t).1 ≡ (codes "/proc/self/setgroups", codes "deny") ∷ written t
  unfolding deny_setgroups written
  deny_setgroups-written w t =
      let (fd, opens) = w.opens t (codes "/proc/self/setgroups") write_only 0 in
      rw opens (rw (w.writes _ fd (codes "deny")) (ground arith))

  -- On a host that takes all writes the container's root is mapped to the given user and group, for
  -- one id each, with setgroups denied before the group is mapped. The ids are those of a `uid_t`, below
  -- 2 ^ 32. One below 2 ^ 31 is written as it is, and any other as the negative number that `%d` makes of it.
  pub namespace_setup_user-written :
      IsWritable H
      → (uid gid : ℕ) (t : Trace) → uid < 2 ^ 32
      → gid < 2 ^ 32
      → ((namespace_setup_user H uid gid t).0 ≡ ok)
        × (written (namespace_setup_user H uid gid t).1
            ≡ (codes "/proc/self/gid_map", codes "0 " ++ (printed_id gid ++ codes " 1"))
              ∷ (codes "/proc/self/uid_map", codes "0 " ++ (printed_id uid ++ codes " 1"))
              ∷ (codes "/proc/self/setgroups", codes "deny")
              ∷ written t)
  unfolding namespace_setup_user
  namespace_setup_user-written w uid gid t hu hg =
      let denied = deny_setgroups-written w t in
      let t₁ = (deny_setgroups H t).1 in
      let (good, mapped) = write_map-written w (codes "/proc/self/uid_map") (map_line uid) t₁ in
      let t₂ = (write_map H (codes "/proc/self/uid_map") (map_line uid) t₁).1 in
      let (good', mapped') = write_map-written w (codes "/proc/self/gid_map") (map_line gid) t₂ in
      rw (sym (map_line_lem uid hu), sym (map_line_lem gid hg))
        (ground (arith, good, good'), ground (arith, good, denied, mapped, mapped'))
