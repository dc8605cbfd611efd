-- ===== src/Host/Mounts.antt =====
-- What a trace says of mounts and of the plain order of the calls.
use cruntm.Base.{ℕ, ◌≡◌, List, [], ◌∷◌}
use cruntm.Host.{Call, mount, Reply, value, failed, Trace}

-- A successful mount is recorded with its arguments.
unfoldable pub mount_step : Call → Reply → List Call → List Call
mount_step (mount source target fstype flags options) r done = elim r [
  | value n ↦ mount source target fstype flags options ∷ done
  | failed e ↦ done
]
mount_step _ r done = done

-- The mounts that succeeded, the latest first.
unfoldable pub mounted : Trace → List Call
unfolding mount_step
mounted [] = []
mounted (e ∷ t) = mount_step e.call e.reply (mounted t)

-- The last call was this one, and it failed.
abbrev pub FailedLast : Call → Trace → Type 0
FailedLast c t = (before : Trace) × (e : ℕ) × (t ≡ record { call = c; reply = failed e } ∷ before)

-- The calls, the latest first.
unfoldable pub calls : Trace → List Call
calls [] = []
calls (e ∷ t) = e.call ∷ calls t
