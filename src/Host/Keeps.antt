-- ===== src/Host/Keeps.antt =====
-- Code that closes what it opens.
use cruntm.Base.{◌≡◌}
use cruntm.Host.{M, Trace}
use cruntm.Host.Files.{open_files}

-- The same descriptors are open behind the code as in front of it, on the same paths.
abbrev pub KeepsFiles : {A : Type 0} → M A → Type 0
KeepsFiles m = (t : Trace) → open_files (m t).1 ≡ open_files t
