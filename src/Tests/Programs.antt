-- ===== src/Tests/Programs.antt =====
-- The theorems on the parsers and on the program at concrete inputs.
use cruntm.Base.{
  ◌%◌, ltb, if◌then◌else◌, false, ℕ, ◌-◌, ◌*◌, ◌<◌, ◌≡◌, refl, inl, ◌^◌, ◌⊎◌, ◌↔◌, true, List, [],
  ◌∷◌, ◌++◌, arith, take, length, map, All, Bool, backwards,
}
use cruntm.Base.Int.{pos}
use cruntm.Text.{Bytes, codes, strncpy, decimal}
use cruntm.Text.Laws.{Lacks, join}
use cruntm.Types.{max_ports, max_mounts, is_ok}
use cruntm.Host.Mounts.{mounted}
use cruntm.Namespace.{
  namespace_setup_mounts, mount_readonly, mount_specials, mount_special, mount_volumes,
}
use cruntm.Namespace.Mounts.{required, specials, pick}
use cruntm.Main.Volumes.{
  Volume, bind, HasPlainSource, bind_mount, bound_settings, bound_config,
  apply_options-namespace_setup_mounts,
}
use cruntm.Host.{call, getuid, getgid, result, fopen, fread, uninitialised, is_failure}
use cruntm.Utils.{overwrite, trim_whitespace, split_string, generate_id, parse_size}
use cruntm.Utils.Trim.{AllBlank, Starts, Ends, trim_whitespace_lem}
use cruntm.Utils.Split.{split_string-join}
use cruntm.Utils.Size.{Unit1024, mega, parse_size-decimal}
use cruntm.Utils.Identifier.{AllHex, digit_value, generate_id_lem}
use cruntm.Main.{
  letter, Settings, go, apply_option, apply_letter, apply_options, default_settings, bind_volume,
}
use cruntm.Main.Ports.{Request, publish, granted, with_ports, FitsInt, apply_options-publish}
use cruntm.Main.Options.{IsBounded, apply_options-IsBounded}
use cruntm.Log.{initial_log_level}
use cruntm.Main.Run.{
  Arguments, exited, crashed, with_command, image_rootfs, start_container, run_image, finish_run,
  cmd_run,
}
use cruntm.Main.Program.{default_ctx, apply_globals, main}
use cruntm.Main.Crashes.{ReachesEnv, cmd_run_crashed}
use cruntm.Main.Starts.{WasStarted, refused_status, cmd_run_ok, main_unprivileged}
use cruntm.Tests.Hosts.{
  accept, accepting, unprivileged, whole_numbers, whole_numbers-IsExact, willing, unwilling,
  no_options,
}

trim_whitespace_lem_example :
    (lead : Bytes) × (trail : Bytes) × (codes "  a b\n"
      ≡ lead ++ (trim_whitespace (codes "  a b\n") ++ trail))
    × AllBlank lead
    × AllBlank trail
    × Starts (trim_whitespace (codes "  a b\n"))
    × Ends (trim_whitespace (codes "  a b\n"))
trim_whitespace_lem_example = trim_whitespace_lem (codes "  a b\n")

abbrev names : List Bytes
names = codes " b " ∷ codes "c" ∷ []

no_commas : All (Lacks b',') (codes "a" ∷ names)
unfolding codes
no_commas = ground arith

split_string-join_example :
    split_string b',' 2 (join b',' (codes "a" ∷ names))
    ≡ take 2 (map trim_whitespace (codes "a" ∷ names))
split_string-join_example = split_string-join b',' 2 (codes "a") names no_commas

megabytes : Unit1024 (codes "MB") 2
unfolding codes
megabytes = mega b'M' (b'B' ∷ []) (inl refl)

parse_size-decimal_example :
    parse_size whole_numbers (decimal 512 ++ codes "MB") ≡ pos (512 * 1024 ^ 2)
parse_size-decimal_example =
    parse_size-decimal whole_numbers whole_numbers-IsExact 512 2 (codes "MB") megabytes
      (omega arith)

generate_id_lem_example :
    let text = (generate_id accepting 65 []).0 in
    let opened = accepting.answer [] (fopen (codes "/dev/urandom") (codes "r")) in
    let u = (call accepting (fopen (codes "/dev/urandom") (codes "r")) []).1 in
    let bytes =
      overwrite 32
        (accepting.input u (fread (result opened) 32))
        (accepting.input u (uninitialised 32)) in
    AllHex text
    × (length text < 65)
    × (((is_failure opened ≡ true) × (length text ≡ 65 - 1))
        ⊎ ((is_failure opened ≡ false)
            × (length text ≡ (if ltb (65 - 1) 32 then 65 - 1 else 32))
            × (map digit_value text ≡ take (65 - 1) (map (λ b. b % 16) bytes))))
generate_id_lem_example = generate_id_lem accepting 65 [] (omega arith)

abbrev named : Settings
named =
    let s = default_settings (codes "a1") 0 0 in
    record s { config = record (s.config) { name = codes "web" } }

name_taken :
    apply_options whole_numbers (letter b'n' (codes "web") ∷ []) (default_settings (codes "a1") 0 0)
    ≡ go named
unfolding apply_options apply_option apply_letter strncpy codes take
name_taken = refl

apply_options-IsBounded_example : IsBounded named.config
apply_options-IsBounded_example =
    apply_options-IsBounded whole_numbers (letter b'n' (codes "web") ∷ []) (codes "a1") 0 0 named
      name_taken

abbrev demo : Arguments
demo = record { options = []; operands = codes "demo" ∷ codes "ls" ∷ [] }

demo_runs : (cmd_run accepting willing whole_numbers default_ctx demo []).0 ≡ exited 0
unfolding cmd_run finish_run run_image start_container apply_options default_settings
demo_runs = refl

cmd_run_ok_example :
    (id : Bytes) × (uid : ℕ) × (gid : ℕ) × (s : Settings) × (image : Bytes) × (rest : List Bytes)
    × (apply_options whole_numbers demo.options (default_settings id uid gid) ≡ go s)
    × (demo.operands ≡ image ∷ rest)
    × WasStarted willing default_ctx
        (with_command rest (record (s.config) { rootfs = image_rootfs default_ctx image }))
cmd_run_ok_example = cmd_run_ok accepting willing whole_numbers default_ctx demo [] demo_runs

main_unprivileged_example :
    (main unprivileged willing no_options whole_numbers (codes "cruntime") (codes "ps" ∷ []) []
      ≡ main unprivileged unwilling no_options whole_numbers
          (codes "cruntime")
          (codes "ps" ∷ [])
          [])
    × ((main unprivileged willing no_options whole_numbers
          (codes "cruntime")
          (codes "ps" ∷ [])
          []).0
        ≡ exited (
            refused_status (
              apply_globals
                (no_options.parse_main (codes "ps" ∷ [])).options
                default_ctx
                initial_log_level)))
main_unprivileged_example =
    main_unprivileged unprivileged willing unwilling no_options whole_numbers (codes "cruntime")
      (codes "ps" ∷ []) [] refl

-- The second asks for a port above 65535.
abbrev requests : List Request
requests =
    record { host = 8080; container = 80; protocol = codes "tcp" }
    ∷ record { host = 70000; container = 53; protocol = codes "udp" }
    ∷ []

requests-FitInt : All FitsInt requests
requests-FitInt = ground arith

apply_options-publish_example :
    apply_options whole_numbers (map publish requests) (default_settings (codes "a1") 0 0)
    ≡ go (with_ports (take max_ports (map granted requests)) (default_settings (codes "a1") 0 0))
apply_options-publish_example =
    apply_options-publish whole_numbers requests (codes "a1") 0 0 requests-FitInt

abbrev volumes : List Volume
volumes = record { source = codes "/data"; target = codes "/mnt" } ∷ []

volumes-HasPlainSource : All HasPlainSource volumes
unfolding codes
volumes-HasPlainSource = ground arith

abbrev root : Bytes
root = codes "/srv/root"

volumes_bound :
    is_ok (namespace_setup_mounts accepting (bound_config volumes (codes "a1") root 0 0) []).0
    ≡ true
unfolding namespace_setup_mounts mount_readonly mount_specials mount_special mount_volumes accept
    default_settings bind_volume take
volumes_bound = refl

apply_options-namespace_setup_mounts_example :
    (apply_options whole_numbers (map bind volumes) (default_settings (codes "a1") 0 0)
      ≡ go (bound_settings volumes (codes "a1") 0 0))
    × ((bs : List Bool) × (mounted
            (namespace_setup_mounts accepting (bound_config volumes (codes "a1") root 0 0) []).1
          ≡ backwards (take max_mounts (map (bind_mount root) volumes))
            ++ pick bs
                (specials root)
                (backwards (required (bound_config volumes (codes "a1") root 0 0)) ++ mounted [])))
apply_options-namespace_setup_mounts_example =
    apply_options-namespace_setup_mounts whole_numbers accepting volumes (codes "a1") root 0 0 []
      volumes-HasPlainSource volumes_bound

-- The environment is asked for behind a name.
abbrev with_env : Arguments
with_env = record {
  options = letter b'n' (codes "web") ∷ letter b'e' (codes "A=1") ∷ [];
  operands = codes "demo" ∷ [];
}

cmd_run_crashed_example :
    let (id, t₁) = generate_id accepting 65 [] in
    let (uid, t₂) = call accepting getuid t₁ in
    let (gid, t₃) = call accepting getgid t₂ in
    ((cmd_run accepting willing whole_numbers default_ctx with_env []).0 ≡ crashed)
    ↔ ReachesEnv whole_numbers with_env.options (default_settings id (result uid) (result gid))
cmd_run_crashed_example = cmd_run_crashed accepting willing whole_numbers default_ctx with_env []
