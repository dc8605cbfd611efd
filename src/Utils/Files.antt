-- ===== src/Utils/Files.antt =====
-- read_file reads what write_file has written.
use cruntm.Base.{ℕ, ◌≡◌, Bool, true, false, [], ◌∷◌, ◌++◌, take, length, ◌==◌, if◌then◌else◌}
use cruntm.Text.{Bytes, codes}
use cruntm.Text.Laws.{equal}
use cruntm.Host.{
  Host, Trace, Call, call, fopen, fseek_start, fseek_end, ftell, malloc, fread, fputs, Reply, value,
  result, is_failure,
}

abbrev path_step : Call → Reply → ℕ → Bytes → Bytes
path_step (fopen p m) (value g) f before = if g == f then p else before
path_step _ r f before = before

-- The path on which the stream was opened last.
unfoldable pub path_of : Trace → ℕ → Bytes
path_of [] f = []
path_of (e ∷ t) f = path_step e.call e.reply f (path_of t f)

abbrev text_step : Call → Reply → Trace → Bytes → Bytes → Bytes
text_step (fopen p m) (value g) t q before =
    if equal m (codes "w") then (if equal p q then [] else before) else before
text_step (fputs text f) (value n) t q before =
    if equal (path_of t f) q then before ++ text else before
text_step _ r t q before = before

-- What the file on the path holds: opening for writing empties it, and fputs adds to it.
unfoldable pub text_of : Trace → Bytes → Bytes
text_of [] q = []
text_of (e ∷ t) q = text_step e.call e.reply t q (text_of t q)

abbrev place_step : Call → Trace → ℕ → Bool × Bool → Bool × Bool
place_step (fseek_start g) t f before = if g == f then (true, false) else before
place_step (fseek_end g) t f before = if g == f then (false, true) else before
place_step (fread g n) t f before = if g == f then (false, false) else before
place_step _ t f before = before

-- Whether the stream is known to stand at the start of its file, and at the end of it.
unfoldable pub place_of : Trace → ℕ → Bool × Bool
place_of [] f = (false, false)
place_of (e ∷ t) f = place_step e.call t f (place_of t f)

-- The documented behaviour of the streams of the C library on a system with room for the text:
-- fputs takes a text and malloc gives memory, ftell at the end of a file is its length, and fread at
-- the start of it delivers its first bytes.
pub record IsStore (H : Host) : Type 0 where
  pub takes : (t : Trace) (text : Bytes) (f : ℕ) → is_failure (H.answer t (fputs text f)) ≡ false
  pub allocates : (t : Trace) (n : ℕ) → is_failure (H.answer t (malloc n)) ≡ false
  pub tells :
      (t : Trace) (f : ℕ)
      → (place_of t f).1 ≡ true
      → result (H.answer t (ftell f)) ≡ length (text_of t (path_of t f))
  pub delivers :
      (t : Trace) (f n : ℕ)
      → (place_of t f).0 ≡ true
      → H.input t (fread f n) ≡ take n (text_of t (path_of t f))
