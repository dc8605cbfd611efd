-- ===== src/Main/Starts.antt =====
-- What has happened when the program ends: no runtime without root, no success without a container
-- that was created and started.
use cruntm.Base.{ℕ, ◌≡◌, refl, inl, inr, true, false, List, [], ◌∷◌, ◌++◌, arith, ◌==◌, Bool-cases}
use cruntm.Text.{Bytes, codes}
use cruntm.Types.{is_ok, RuntimeCtx, ContainerConfig, Container}
use cruntm.Host.{Host, Trace, call, geteuid, getuid, getgid, print_out, result}
use cruntm.Utils.{Doubles, generate_id}
use cruntm.Log.{initial_log_level}
use cruntm.Main.{Settings, Outcome, go, usage_error, fault, apply_options, default_settings}
use cruntm.Main.Run.{
  Runtime, Arguments, exited, with_command, image_rootfs, start_container, run_image, finish_run,
  cmd_run,
}
use cruntm.Main.Program.{
  Getopt, Global, proceed, show_help, show_version, default_ctx, apply_globals, start_runtime,
  after_globals, main,
}

-- The container of the configuration was created, and then started, both with CR_OK, at some points
-- of the run.
abbrev pub WasStarted : Runtime → RuntimeCtx → ContainerConfig → Type 0
WasStarted R ctx config =
    (t : Trace) × (u : Trace) × (is_ok (R.container_create ctx config t).0.0 ≡ true)
    × (is_ok (R.container_start ctx (R.container_create ctx config t).0.1 u).0.0 ≡ true)

module _ (H : Host) (R : Runtime) where
  start_container_ok :
      (ctx : RuntimeCtx) (s : Settings) (c : Container) (t : Trace)
      → (start_container H R ctx s c t).0 ≡ exited 0
      → (u : Trace) × (is_ok (R.container_start ctx c u).0.0 ≡ true)
  unfolding start_container
  start_container_ok ctx s c t h =
      let u = (call H (print_out (s.config.id ++ codes "\n")) t).1 in
      elim (Bool-cases (is_ok (R.container_start ctx c u).0.0)) [
        | inl e ↦ (u, e)
        | inr e ↦ absurd (ground arith)
      ]

  run_image_ok :
      (ctx : RuntimeCtx) (operands : List Bytes) (s : Settings) (t : Trace)
      → (run_image H R ctx operands s t).0 ≡ exited 0
      → (image : Bytes) × (rest : List Bytes) × (operands ≡ image ∷ rest)
        × WasStarted R ctx
            (with_command rest (record (s.config) { rootfs = image_rootfs ctx image }))
  unfolding run_image
  run_image_ok ctx [] s t h = absurd (ground arith)
  run_image_ok ctx (image ∷ rest) s t h =
      let config = with_command rest (record (s.config) { rootfs = image_rootfs ctx image }) in
      let made = R.container_create ctx config t in
      elim (Bool-cases (is_ok made.0.0)) [
        | inl e ↦
            let (u, k) =
              start_container_ok ctx (record s { config = config }) made.0.1 made.1
                (ground arith) in
            (image, rest, refl, (t, u, e, k))
        | inr e ↦ absurd (ground arith)
      ]

  finish_run_ok :
      (ctx : RuntimeCtx) (operands : List Bytes) (o : Outcome) (t : Trace)
      → (finish_run H R ctx operands o t).0 ≡ exited 0
      → (s : Settings) × (o ≡ go s) × ((run_image H R ctx operands s t).0 ≡ exited 0)
  unfolding finish_run
  finish_run_ok ctx operands (go s) t h = (s, refl, h)
  finish_run_ok ctx operands usage_error t h = absurd (ground arith)
  finish_run_ok ctx operands fault t h = absurd (ground arith)

  -- run exits with 0 only if its options are taken, an image is named, and a container for it was
  -- created and started: the container of the default configuration with those options, the image's
  -- root and the command behind the image.
  pub cmd_run_ok :
      (D : Doubles) (ctx : RuntimeCtx) (args : Arguments) (t : Trace)
      → (cmd_run H R D ctx args t).0 ≡ exited 0
      → (id : Bytes) × (uid : ℕ) × (gid : ℕ) × (s : Settings) × (image : Bytes) × (rest : List
          Bytes)
        × (apply_options D args.options (default_settings id uid gid) ≡ go s)
        × (args.operands ≡ image ∷ rest)
        × WasStarted R ctx
            (with_command rest (record (s.config) { rootfs = image_rootfs ctx image }))
  unfolding cmd_run
  cmd_run_ok D ctx args t h =
      let made = generate_id H 65 t in
      let uid = call H getuid made.1 in
      let gid = call H getgid uid.1 in
      let outcome =
        apply_options D args.options (default_settings made.0 (result uid.0) (result gid.0)) in
      let (s, e, k) = finish_run_ok ctx args.operands outcome gid.1 h in
      let (image, rest, o, w) = run_image_ok ctx args.operands s gid.1 k in
      (made.0, result uid.0, result gid.0, s, image, rest, e, o, w)

-- The status of a program that is not let on to the runtime: that of the help or the version where
-- the global options ask for them, and else 1.
abbrev pub refused_status : Global → ℕ
refused_status (proceed ctx level) = 1
refused_status (show_help status) = status
refused_status show_version = 0

module _ (H : Host) (R K : Runtime) (G : Getopt) (D : Doubles) (prog : Bytes) where
  start_runtime_unprivileged :
      (ctx : RuntimeCtx) (operands : List Bytes) (t : Trace)
      → (result (H.answer t geteuid) == 0) ≡ false
      → (start_runtime H R G D prog ctx operands t ≡ start_runtime H K G D prog ctx operands t)
        × ((start_runtime H R G D prog ctx operands t).0 ≡ exited 1)
  unfolding start_runtime
  start_runtime_unprivileged ctx [] t h = (refl, refl)
  start_runtime_unprivileged ctx (cmd ∷ rest) t h = rw (h, start_runtime) (refl, refl)

  after_globals_unprivileged :
      (g : Global) (operands : List Bytes) (t : Trace)
      → (result (H.answer t geteuid) == 0) ≡ false
      → (after_globals H R G D prog g operands t ≡ after_globals H K G D prog g operands t)
        × ((after_globals H R G D prog g operands t).0 ≡ exited (refused_status g))
  unfolding after_globals
  after_globals_unprivileged (proceed ctx level) operands t h =
      start_runtime_unprivileged ctx operands t h
  after_globals_unprivileged (show_help status) operands t h = (refl, refl)
  after_globals_unprivileged show_version operands t h = (refl, refl)

  -- For a user other than root the program does not come to the runtime: it ends in the same way and
  -- with the same calls whatever the functions of the runtime do. Its status is that of the help or
  -- the version where the global options ask for them, and else 1.
  pub main_unprivileged :
      (args : List Bytes) (t : Trace)
      → (result (H.answer t geteuid) == 0) ≡ false
      → (main H R G D prog args t ≡ main H K G D prog args t)
        × ((main H R G D prog args t).0
            ≡ exited (
                refused_status
                  (apply_globals (G.parse_main args).options default_ctx initial_log_level)))
  unfolding main
  main_unprivileged args t h = after_globals_unprivileged _ _ t h
