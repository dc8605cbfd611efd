-- ===== src/Cgroup/Weight.antt =====
-- The conversion of CPU shares to the weight of cgroup v2.
use cruntm.Base.{ℕ, ◌*◌, ◌/◌, ◌^◌, ◌<◌, ◌≡◌, arith}
use cruntm.Base.Int.{ℤ, pos, ◌≤ℤ◌, IsInt64}
use cruntm.Cgroup.{cpu_weight}
use Prim.Native.Nat.{max, min}

-- Whatever the shares are, wrapped-around products included, the weight is one that cpu.weight takes.
cpu_weight_bounds : (s : ℤ) → (pos 1 ≤ℤ cpu_weight s) × (cpu_weight s ≤ℤ pos 10000)
unfolding cpu_weight
cpu_weight_bounds s = ground arith

pub cpu_weight-IsInt64 : (s : ℤ) → IsInt64 (cpu_weight s)
unfolding cpu_weight
cpu_weight-IsInt64 s = ground arith

-- Shares whose product with 10000 fits an `int64_t` get the proportional weight, rounded down and
-- brought into 1 .. 10000.
pub cpu_weight-eq :
    (n : ℕ) → n * 10000 < 2 ^ 63 → cpu_weight (pos n) ≡ pos (min 10000 (max 1 (n * 10000 / 262144)))
unfolding cpu_weight
cpu_weight-eq n h = ground arith
