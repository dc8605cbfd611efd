-- ===== src/Host/Streams.antt =====
-- What a trace says of the streams of the C library: which are open, and on which path.
use cruntm.Base.{ℕ, ◌≡◌, List, [], ◌∷◌, ◌==◌, if◌then◌else◌}
use cruntm.Host.{
  M, Trace, Call, fopen, popen, opendir, fclose, pclose, closedir, Reply, value, failed,
}

unfoldable pub without : ℕ → List ℕ → List ℕ
without f [] = []
without f (g ∷ gs) = if g == f then gs else g ∷ without f gs

abbrev opened_step : Reply → List ℕ → List ℕ
opened_step (value f) open_ones = f ∷ open_ones
opened_step (failed e) open_ones = open_ones

unfoldable pub streams_step : Call → Reply → List ℕ → List ℕ
unfolding without
streams_step (fopen p m) r open_ones = opened_step r open_ones
streams_step (popen cmd) r open_ones = opened_step r open_ones
streams_step (opendir p) r open_ones = opened_step r open_ones
streams_step (fclose f) r open_ones = without f open_ones
streams_step (pclose f) r open_ones = without f open_ones
streams_step (closedir f) r open_ones = without f open_ones
streams_step _ r open_ones = open_ones

-- The files, pipes and directories that are open after a trace.
unfoldable pub streams : Trace → List ℕ
unfolding streams_step
streams [] = []
streams (e ∷ t) = streams_step e.call e.reply (streams t)

-- The same streams are open behind the code as in front of it.
abbrev pub KeepsStreams : {A : Type 0} → M A → Type 0
KeepsStreams m = (t : Trace) → streams (m t).1 ≡ streams t
