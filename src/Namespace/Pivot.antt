-- ===== src/Namespace/Pivot.antt =====
-- The order of the steps of namespace_pivot_root.
use cruntm.Base.{◌≡◌, Bool, List, [], ◌∷◌, ◌++◌, backwards}
use cruntm.Text.{Bytes, codes}
use cruntm.Types.{is_ok, ok}
use cruntm.Host.{Host, Trace, Call, mkdir, rmdir, umount2, pivot_root, chdir}
use cruntm.Host.Plans.{Step, must, may, Execution, logged, Run-tried, Run-must, Run-done}
use cruntm.Namespace.{mnt_detach, below, namespace_pivot_root}

-- The steps of a change of root, with those that have to succeed. The old root is reached only by
-- its path below the new one.
abbrev pub pivot_plan : Bytes → List (Step Call)
pivot_plan new_root =
    may (mkdir (below new_root (codes "/.oldroot")) 0o700)
    ∷ must (pivot_root new_root (below new_root (codes "/.oldroot")))
    ∷ must (chdir (codes "/"))
    ∷ must (umount2 (codes "/.oldroot") mnt_detach)
    ∷ may (rmdir (codes "/.oldroot"))
    ∷ []

module _ (H : Host) where
  -- The function makes the calls of the plan in order and no others, and gives it up at the first of
  -- pivot_root, chdir and umount2 that fails. It returns CR_OK exactly when none of the three failed
  -- and the plan came to its end; a failure of mkdir or rmdir is passed over.
  pub namespace_pivot_root-calls :
      (new_root : Bytes) (t : Trace)
      → let (code, t') = namespace_pivot_root H new_root t in
        (log : List (Call × Bool)) × (logged t' ≡ backwards log ++ logged t)
        × Execution (pivot_plan new_root) log (is_ok code)
  unfolding namespace_pivot_root
  namespace_pivot_root-calls new_root t =
      Run-tried H t _
        (Run-must H _ _ (Run-must H _ _ (Run-must H _ _ (Run-tried H _ (ok, _) (Run-done H _)))))
