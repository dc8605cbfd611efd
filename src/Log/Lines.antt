-- ===== src/Log/Lines.antt =====
-- What the log writes: nothing below the current level, and else one whole line.
use cruntm.Base.{
  ℕ, ◌-◌, ◌/◌, ◌%◌, ◌≤◌, ◌<◌, ◌≡◌, refl, ap, ◌∙◌, ◌⊎◌, inl, inr, false, not, [], ◌∷◌, ◌++◌,
  append_assoc, arith, length, length-append, ltb, ◌==◌, ltb→lt, Bool-cases,
}
use cruntm.Text.{Bytes, codes, snprintf}
use cruntm.Text.Laws.{snprintf-eq_self}
use cruntm.Types.{LogLevel, debug, info, warn, error_level, fatal}
use cruntm.Host.{Host, Trace, Call, call, gettimeofday, isatty, print_err, result}
use cruntm.Log.{
  level_number, three_digits, header, Logged, returned, exits, exit_if_fatal, get_timestamp, cr_log,
}

abbrev err_step : Call → Bytes → Bytes
err_step (print_err text) before = before ++ text
err_step _ before = before

-- All that was written to stderr, the first text first.
unfoldable pub err_text : Trace → Bytes
err_text [] = []
err_text (e ∷ t) = err_step e.call (err_text t)

-- The documented length of "%Y-%m-%d %H:%M:%S", for years of four digits.
abbrev pub HasStampLength : (ℕ → Bytes) → Type 0
HasStampLength local_time = (seconds : ℕ) → length (local_time seconds) ≡ 19

stamp-eq :
    (text rest : Bytes)
    → length text ≡ 19
    → length rest ≡ 4
    → (length (text ++ snprintf (32 - length text) rest) ≡ 23)
      × (text ++ snprintf (32 - length text) rest ≡ text ++ rest)
stamp-eq text rest h k =
    let whole = snprintf-eq_self (32 - length text) rest (omega arith) in
    (rw whole (omega (arith, length-append text rest)), rw whole refl)

-- The milliseconds behind the time are not cut by the buffer of 32 bytes.
get_timestamp_lem :
    (H : Host) (local_time : ℕ → Bytes)
    → HasStampLength local_time
    → (t : Trace)
    → let now = result (H.answer t gettimeofday) in
      let stamp = (get_timestamp H local_time 32 t).0 in
      (length stamp ≡ 23)
      × (stamp ≡ local_time (now / 1000000) ++ (b'.' ∷ three_digits (now % 1000000 / 1000)))
unfolding get_timestamp three_digits
get_timestamp_lem H local_time fixed t =
    stamp-eq (local_time (result (H.answer t gettimeofday) / 1000000)) _
      (fixed (result (H.answer t gettimeofday) / 1000000)) refl

assoc_four : (a b c d : Bytes) → ((a ++ b) ++ c) ++ d ≡ a ++ (b ++ (c ++ d))
assoc_four a b c d = append_assoc (a ++ b) c d ∙ append_assoc a b (c ++ d)

abbrev pub ending : LogLevel → Logged
ending fatal = exits
ending _ = returned

exit_if_fatal_lem :
    (H : Host) (level : LogLevel) (t : Trace)
    → (err_text (exit_if_fatal H level t).1 ≡ err_text t)
      × ((exit_if_fatal H level t).0 ≡ ending level)
unfolding exit_if_fatal err_text
exit_if_fatal_lem H debug t = (refl, refl)
exit_if_fatal_lem H info t = (refl, refl)
exit_if_fatal_lem H warn t = (refl, refl)
exit_if_fatal_lem H error_level t = (refl, refl)
exit_if_fatal_lem H fatal t = (refl, refl)

get_timestamp-err_text :
    (H : Host) (local_time : ℕ → Bytes) (n : ℕ) (t : Trace)
    → err_text (get_timestamp H local_time n t).1 ≡ err_text t
unfolding get_timestamp err_text
get_timestamp-err_text H local_time n t = refl

cr_log_written :
    (H : Host) (local_time : ℕ → Bytes) (current level : LogLevel) (message : Bytes) (t : Trace)
    → ltb (level_number level) (level_number current) ≡ false
    → let (stamp, u) = get_timestamp H local_time 32 t in
      let (ended, t') = cr_log H local_time current level message t in
      (ended ≡ ending level)
      × (err_text t'
          ≡ err_text t
            ++ (header (not (result (H.answer u (isatty 2)) == 0)) stamp level
                ++ (message ++ codes "\n")))
unfolding cr_log err_text
cr_log_written H local_time current level message t h =
    let (stamp, u) = get_timestamp H local_time 32 t in
    let front = header (not (result (H.answer u (isatty 2)) == 0)) stamp level in
    (
      rw h ((exit_if_fatal_lem H level _).1),
      rw h (
          (exit_if_fatal_lem H level _).0
          ∙ assoc_four (err_text u) front message (codes "\n")
          ∙ ap (λ before. before ++ (front ++ (message ++ codes "\n")))
              (get_timestamp-err_text H local_time 32 t)),
    )

-- A message below the current level makes no call at all. Any other one adds to stderr one line, whole
-- and in this order: the time with its milliseconds, of 23 characters, the level, and the message,
-- with colours exactly if stderr is a terminal. The program exits exactly if the level is LOG_FATAL. strftime gives the 19 characters of its format.
pub cr_log_lem :
    (H : Host) (local_time : ℕ → Bytes)
    → HasStampLength local_time
    → (current level : LogLevel) (message : Bytes) (t : Trace)
    → let (now, u) = call H gettimeofday t in
      let colored = not (result (H.answer u (isatty 2)) == 0) in
      let seconds = result now / 1000000 in
      let milliseconds = result now % 1000000 / 1000 in
      let (ended, t') = cr_log H local_time current level message t in
      ((level_number level < level_number current) × (ended ≡ returned) × (t' ≡ t))
      ⊎ ((level_number current ≤ level_number level)
          × (ended ≡ ending level)
          × ((stamp : Bytes) × (length stamp ≡ 23)
              × (stamp ≡ local_time seconds ++ (b'.' ∷ three_digits milliseconds))
              × (err_text t'
                  ≡ err_text t ++ (header colored stamp level ++ (message ++ codes "\n")))))
unfolding get_timestamp
cr_log_lem H local_time fixed current level message t =
    elim (Bool-cases (ltb (level_number level) (level_number current))) [
      | inl h ↦ inl (ltb→lt _ _ h, (unfold cr_log in rw h refl), (unfold cr_log in rw h refl))
      | inr h ↦
          let (ended, text) = cr_log_written H local_time current level message t h in
          let (size, stamped) = get_timestamp_lem H local_time fixed t in
          inr (ground arith, ended, (_, size, stamped, text))
    ]
