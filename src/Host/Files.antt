-- ===== src/Host/Files.antt =====
-- What a trace says of files: the table of open descriptors, and what was written to which file.
use cruntm.Base.{ℕ, ◌≡◌, List, [], ◌∷◌, length, ◌==◌, if◌then◌else◌}
use cruntm.Text.{Bytes}
use cruntm.Host.{Call, OpenFlags, open_file, write, close, Reply, value, failed, Trace, Host}

-- A descriptor and the path that it was opened on.
abbrev pub Table : Type 0
Table = List (ℕ × Bytes)

unfoldable pub forget : ℕ → Table → Table
forget fd [] = []
forget fd ((n, p) ∷ rest) = if n == fd then rest else (n, p) ∷ forget fd rest

unfoldable pub path_of : ℕ → Table → Bytes
path_of fd [] = []
path_of fd ((n, p) ∷ rest) = if n == fd then p else path_of fd rest

abbrev open_step : Bytes → Reply → Table → Table
open_step p (value fd) table = (fd, p) ∷ table
open_step p (failed e) table = table

-- One event changes the table if it opens or closes a descriptor.
unfoldable pub table_step : Call → Reply → Table → Table
unfolding forget
table_step (open_file p f m) r table = open_step p r table
table_step (close fd) r table = forget fd table
table_step _ r table = table

-- The descriptors that are open after a trace.
unfoldable pub open_files : Trace → Table
unfolding table_step
open_files [] = []
open_files (e ∷ t) = table_step e.call e.reply (open_files t)

abbrev pub Written : Type 0
Written = List (Bytes × Bytes)

abbrev record_step : Bytes → Bytes → Reply → Written → Written
record_step path text (value n) done = if n == length text then (path, text) ∷ done else done
record_step path text (failed e) done = done

-- A write that took the whole text is recorded with its file.
unfoldable pub written_step : Call → Reply → Table → Written → Written
unfolding path_of
written_step (write fd text) r table done = record_step (path_of fd table) text r done
written_step _ r table done = done

-- The complete writes of a trace, the latest first.
unfoldable pub written : Trace → Written
unfolding written_step open_files
written [] = []
written (e ∷ t) = written_step e.call e.reply (open_files t) (written t)

-- A host on which opening for writing and writing succeed in full.
pub record IsWritable (H : Host) : Type 0 where
  pub opens :
      (t : Trace) (p : Bytes) (f : OpenFlags) (m : ℕ)
      → (fd : ℕ) × (◌≡◌ (H.answer t (open_file p f m)) (value fd))
  pub writes :
      (t : Trace) (fd : ℕ) (text : Bytes) → ◌≡◌ (H.answer t (write fd text)) (value (length text))
