-- ===== src/Namespace/Persist.antt =====
-- The file that keeps a namespace.
use cruntm.Base.{
  ℕ, ◌≡◌, refl, ap, ◌⊎◌, Option, inl, inr, none, some, List, [], ◌∷◌, ◌++◌, if◌then◌else◌,
}
use cruntm.Base.Int.{ℤ}
use cruntm.Text.{Bytes, codes, snprintf, print_int, strrchr}
use cruntm.Text.Laws.{equal, equal_refl}
use cruntm.Types.{ok, esyscall}
use cruntm.Host.{
  Host, Trace, Call, open_file, create_exclusive, unlink, mount, close, call, Reply, value, failed,
  is_failure, Reply-cases,
}
use cruntm.Host.Mounts.{mounted, FailedLast}
use cruntm.Namespace.{ms_bind, make_parent, namespace_persist}

abbrev drop_path : Bytes → List Bytes → List Bytes
drop_path p [] = []
drop_path p (q ∷ qs) = if equal q p then qs else q ∷ drop_path p qs

-- A file that was created, and one that could be removed.
abbrev created_step : Call → Reply → List Bytes → List Bytes
created_step (open_file p create_exclusive mode) (value n) done = p ∷ done
created_step (unlink p) (value n) done = drop_path p done
created_step _ r done = done

-- The files that were created exclusively and not removed again.
unfoldable pub created : Trace → List Bytes
created [] = []
created (e ∷ t) = created_step e.call e.reply (created t)

-- The mount that keeps the namespace of the process at the path.
abbrev pub kept_at : ℤ → Bytes → Bytes → Call
kept_at pid ns_name path =
    mount (some (snprintf 256 (codes "/proc/" ++ (print_int pid ++ (codes "/ns/" ++ ns_name)))))
      path none ms_bind none

module _ (H : Host) where
  make_parent-created :
      (dir : Option Bytes) (t : Trace) → created (make_parent H dir t).1 ≡ created t
  unfolding make_parent created
  make_parent-created none t = refl
  make_parent-created (some dir) t = refl

  make_parent-mounted :
      (dir : Option Bytes) (t : Trace) → mounted (make_parent H dir t).1 ≡ mounted t
  unfolding make_parent mounted
  make_parent-mounted none t = refl
  make_parent-mounted (some dir) t = refl

  -- The three cases of namespace_persist. With CR_OK the file at the path is created and the
  -- namespace mounted on it. If the file cannot be created, as when there is one, that is the last
  -- thing tried: nothing is created or mounted, and the code is CR_ESYSCALL. If the mount fails the
  -- file is removed as the last thing, nothing is mounted, and the code is CR_ESYSCALL: nothing
  -- created is left of it, unless the removal fails, and then the file is.
  pub namespace_persist-created :
      (pid : ℤ) (ns_name path : Bytes) (t : Trace)
      → let (code, t') = namespace_persist H pid ns_name path t in
        ((code ≡ ok)
          × (created t' ≡ path ∷ created t)
          × (mounted t' ≡ kept_at pid ns_name path ∷ mounted t))
        ⊎ ((code ≡ esyscall)
            × FailedLast (open_file path create_exclusive 0o444) t'
            × (created t' ≡ created t)
            × (mounted t' ≡ mounted t))
        ⊎ ((code ≡ esyscall)
            × ((before : Trace) × (e : ℕ) × (r : Reply) × (t'
                  ≡ record { call = unlink path; reply = r }
                    ∷ record { call = kept_at pid ns_name path; reply = failed e }
                    ∷ before)
                × (created t' ≡ (if is_failure r then path ∷ created t else created t)))
            × (mounted t' ≡ mounted t))
  unfolding namespace_persist created mounted
  namespace_persist-created pid ns_name path t =
      let bound = kept_at pid ns_name path in
      let dir = strrchr b'/' path in
      let opening = open_file path create_exclusive 0o444 in
      let u = (make_parent H dir t).1 in
      elim (Reply-cases (H.answer u opening)) [
        | inr (n, e) ↦ inr (
            inl (
              rw e refl,
              (u, n, rw e refl),
              rw e (make_parent-created dir t),
              rw e (make_parent-mounted dir t),
            ))
        | inl (fd, e) ↦
            let v = record { call = opening; reply = value fd } ∷ u in
            let w = (call H (close fd) v).1 in
            elim (Reply-cases (H.answer w bound)) [
              | inl (n, f) ↦ inl (
                rw (e, f) refl,
                rw (e, f) (ap (λ l. path ∷ l) (make_parent-created dir t)),
                rw (e, f) (ap (λ l. bound ∷ l) (make_parent-mounted dir t)),
              )
              | inr (n, f) ↦
                  let x = record { call = bound; reply = failed n } ∷ w in
                  elim (Reply-cases (H.answer x (unlink path))) [
                    | inl (m, g) ↦ inr (
                        inr (
                          rw (e, f) refl,
                          (
                            w,
                            n,
                            value m,
                            rw (e, f, g) refl,
                            rw (e, f, g, equal_refl path) (make_parent-created dir t),
                          ),
                          rw (e, f) (make_parent-mounted dir t),
                        ))
                    | inr (m, g) ↦ inr (
                        inr (
                          rw (e, f) refl,
                          (
                            w,
                            n,
                            failed m,
                            rw (e, f, g) refl,
                            rw (e, f, g) (ap (λ l. path ∷ l) (make_parent-created dir t)),
                          ),
                          rw (e, f) (make_parent-mounted dir t),
                        ))
                  ]
            ]
      ]
