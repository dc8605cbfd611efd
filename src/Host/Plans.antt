-- ===== src/Host/Plans.antt =====
-- Plans of calls, or of commands, of which a refused one may be the last, and the runs that follow
-- them.
use cruntm.Base.{
  ◌≡◌, refl, sym, ap, ◌∙◌, Bool, true, false, not, List, [], ◌∷◌, ◌++◌, append_assoc, backwards,
  if◌then◌else◌, Bool-cases, inl, inr,
}
use cruntm.Types.{Code, ok, esyscall, is_ok}
use cruntm.Host.{Host, M, pure, Trace, Call, call, is_failure}

-- A step that has to succeed, and one whose failure is passed over.
pub data Step (A : Type 0) : Type 0 where
  must may : A → Step A

-- A plan is carried out in order, and given up at the first step that had to succeed and did not.
-- The log lists the attempts in their order; the mark says whether the plan was carried out.
pub data Execution {A : Type 0} : List (Step A) → List (A × Bool) → Bool → Type 0 where
  finished : Execution [] [] true
  passed :
      {x : A} {plan : List (Step A)} {log : List (A × Bool)} {good : Bool}
      → Execution plan log good
      → Execution (must x ∷ plan) ((x, true) ∷ log) good
  refused : {x : A} {plan : List (Step A)} → Execution (must x ∷ plan) ((x, false) ∷ []) false
  tried :
      {x : A} {plan : List (Step A)} {log : List (A × Bool)} {good : Bool} (s : Bool)
      → Execution plan log good
      → Execution (may x ∷ plan) ((x, s) ∷ log) good

-- The calls and whether they succeeded, the latest first.
unfoldable pub logged : Trace → List (Call × Bool)
logged [] = []
logged (e ∷ t) = (e.call, not (is_failure e.reply)) ∷ logged t

-- From the trace `t` to the result `r`, the calls carry out the plan, and the code is CR_OK exactly
-- if the plan came to its end.
abbrev pub Run : List (Step Call) → Trace → Code × Trace → Type 0
Run plan t r =
    (log : List (Call × Bool)) × (logged r.1 ≡ backwards log ++ logged t)
    × Execution plan log (is_ok r.0)

module _ (H : Host) where
  -- A call in front of a run.
  behind :
      (x : Call) (s : Bool) (t : Trace) (l full : List (Call × Bool))
      → not (is_failure (H.answer t x)) ≡ s
      → full ≡ backwards l ++ logged (call H x t).1
      → full ≡ backwards ((x, s) ∷ l) ++ logged t
  unfolding backwards logged
  behind x s t l full e h =
      h
      ∙ (ap (λ b. backwards l ++ (x, b) ∷ logged t) e
          ∙ sym (append_assoc (backwards l) ((x, s) ∷ []) (logged t)))

  pub Run-done : (t : Trace) → Run [] t (ok, t)
  unfolding backwards
  Run-done t = ([], refl, finished)

  pub Run-tried :
      {x : Call} {plan : List (Step Call)} (t : Trace) (r : Code × Trace)
      → Run plan (call H x t).1 r
      → Run (may x ∷ plan) t r
  Run-tried {x} {plan} t r run =
      let (log, e, ex) = run in
      let s = not (is_failure (H.answer t x)) in
      ((x, s) ∷ log, behind x s t log _ refl e, tried s ex)

  pub Run-passed :
      {x : Call} {plan : List (Step Call)} (t : Trace) (r : Code × Trace)
      → is_failure (H.answer t x) ≡ false
      → Run plan (call H x t).1 r
      → Run (must x ∷ plan) t r
  Run-passed {x} {plan} t r f run =
      let (log, e, ex) = run in ((x, true) ∷ log, behind x true t log _ (rw f refl) e, passed ex)

  pub Run-refused :
      {x : Call} {plan : List (Step Call)} (t : Trace)
      → is_failure (H.answer t x) ≡ true
      → Run (must x ∷ plan) t (esyscall, (call H x t).1)
  unfolding backwards
  Run-refused {x} {plan} t f = ((x, false) ∷ [], behind x false t [] _ (rw f refl) refl, refused)

  -- A call of which a failure ends the function.
  pub Run-must :
      {x : Call} {plan : List (Step Call)} (t : Trace) (k : M Code)
      → Run plan (call H x t).1 (k (call H x t).1)
      → Run
          (must x ∷ plan)
          t
          ((if is_failure (H.answer t x) then pure esyscall else k) (call H x t).1)
  Run-must {x} {plan} t k run = elim (Bool-cases (is_failure (H.answer t x))) [
    | inl f ↦ rw f (Run-refused t f)
    | inr f ↦ rw f (Run-passed t _ f run)
  ]
