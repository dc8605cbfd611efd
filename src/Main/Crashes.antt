-- ===== src/Main/Crashes.antt =====
-- When the command run dies by a write through NULL.
use cruntm.Base.{ℕ, ◌≡◌, refl, ap, ◌∙◌, ◌≢◌, ◌↔◌, inl, inr, List, [], ◌∷◌, ◌++◌, arith, Bool-cases}
use cruntm.Text.{Bytes}
use cruntm.Types.{RuntimeCtx, Container, is_ok}
use cruntm.Host.{Host, Trace, call, getuid, getgid, result}
use cruntm.Utils.{Doubles, generate_id}
use cruntm.Main.{
  Parsed, letter, long, unknown, Settings, Outcome, go, usage_error, fault, apply_long,
  apply_letter, apply_option, apply_options, default_settings,
}
use cruntm.Main.Options.{Outcome-cases, apply_options_env}
use cruntm.Main.Run.{
  Runtime, Arguments, crashed, with_command, image_rootfs, start_container, run_image, finish_run,
  cmd_run,
}

-- An `--env` behind options that are all taken.
abbrev pub ReachesEnv : Doubles → List Parsed → Settings → Type 0
ReachesEnv D options start =
    (before : List Parsed) × (arg : Bytes) × (after : List Parsed) × (s : Settings) × (options
      ≡ before ++ letter b'e' arg ∷ after)
    × (apply_options D before start ≡ go s)

module _ (D : Doubles) where
  apply_letter_fault :
      (opt : ℕ) (arg : Bytes) (s : Settings) → apply_letter D opt arg s ≡ fault → opt ≡ b'e'
  unfolding apply_letter
  apply_letter_fault opt arg s h = ground arith

  apply_option_fault :
      (p : Parsed) (s : Settings)
      → apply_option D p s ≡ fault
      → (arg : Bytes) × (p ≡ letter b'e' arg)
  unfolding apply_option apply_long
  apply_option_fault (letter opt arg) s h =
      (arg, ap (λ o. letter o arg) (apply_letter_fault opt arg s h))
  apply_option_fault (long name arg) s h = absurd (ground arith)
  apply_option_fault unknown s h = absurd (ground arith)

  apply_options_fault :
      (ps : List Parsed) (s : Settings) → apply_options D ps s ≡ fault → ReachesEnv D ps s
  unfolding apply_options
  apply_options_fault [] s h = absurd (ground arith)
  apply_options_fault (p ∷ ps) s h = elim (Outcome-cases (apply_option D p s)) [
    | inl (s', e) ↦
        let (before, arg, after, s'', same, taken) =
          apply_options_fault ps s' (rw (e, apply_options) at h) in
        (p ∷ before, arg, after, s'', ap (◌∷◌ p) same, rw (e, apply_options) taken)
    | inr (inl e) ↦ absurd (ground arith)
    | inr (inr e) ↦
        let (arg, same) = apply_option_fault p s e in ([], arg, ps, s, ap (λ q. q ∷ ps) same, refl)
  ]

module _ (H : Host) (R : Runtime) where
  start_container_exits :
      (ctx : RuntimeCtx) (s : Settings) (c : Container) (t : Trace)
      → (start_container H R ctx s c t).0 ≢ crashed
  unfolding start_container
  start_container_exits ctx s c t h = ground arith

  run_image_exits :
      (ctx : RuntimeCtx) (operands : List Bytes) (s : Settings) (t : Trace)
      → (run_image H R ctx operands s t).0 ≢ crashed
  unfolding run_image
  run_image_exits ctx [] s t h = ground arith
  run_image_exits ctx (image ∷ rest) s t h =
      let config = with_command rest (record (s.config) { rootfs = image_rootfs ctx image }) in
      let made = R.container_create ctx config t in
      elim (Bool-cases (is_ok made.0.0)) [
        | inl e ↦
            start_container_exits ctx (record s { config = config }) made.0.1 made.1 (ground arith)
        | inr e ↦ absurd (ground arith)
      ]

  finish_run_crashed :
      (ctx : RuntimeCtx) (operands : List Bytes) (o : Outcome) (t : Trace)
      → ((finish_run H R ctx operands o t).0 ≡ crashed) ↔ (o ≡ fault)
  unfolding finish_run
  finish_run_crashed ctx operands (go s) t =
      (λ h. absurd (run_image_exits ctx operands s t h), λ h. absurd (ground arith))
  finish_run_crashed ctx operands usage_error t = ground arith
  finish_run_crashed ctx operands fault t = ground arith

  -- The command run writes through NULL exactly if an option `--env` stands behind options that are all
  -- taken, whatever the system and the functions of the runtime do.
  pub cmd_run_crashed :
      (D : Doubles) (ctx : RuntimeCtx) (args : Arguments) (t : Trace)
      → let (id, t₁) = generate_id H 65 t in
        let (uid, t₂) = call H getuid t₁ in
        let (gid, t₃) = call H getgid t₂ in
        ((cmd_run H R D ctx args t).0 ≡ crashed)
        ↔ ReachesEnv D args.options (default_settings id (result uid) (result gid))
  unfolding cmd_run
  cmd_run_crashed D ctx args t =
      let (id, t₁) = generate_id H 65 t in
      let (uid, t₂) = call H getuid t₁ in
      let (gid, t₃) = call H getgid t₂ in
      let start = default_settings id (result uid) (result gid) in
      let (to, from) =
        finish_run_crashed ctx args.operands (apply_options D args.options start) t₃ in
      (
        λ h. apply_options_fault D args.options start (to h),
        λ (before, arg, after, s, same, taken). from (
            ap (λ ps. apply_options D ps start) same
            ∙ apply_options_env D before after arg id (result uid) (result gid) s taken),
      )
