-- ===== src/Buffer.antt =====
-- Reports that are put together in a caller's buffer by `offset += snprintf(buffer + offset,
-- buffer_size - offset, …)`: cgroup_get_stats and storage_get_stats.
use cruntm.Base.{
  ℕ, ◌+◌, ◌-◌, ◌%◌, ◌^◌, ◌≤◌, ◌<◌, List, [], ◌∷◌, ◌++◌, ◌≡◌, arith, length, length-append, All,
  All-append, ltb, if◌then◌else◌,
}
use cruntm.Text.{Bytes}

-- One call of snprintf: where it writes, the size that it is given, and the whole text.
pub record Fill : Type 0 where
  pub at : ℕ
  pub room : ℕ
  pub text : Bytes

pub record Report : Type 0 where
  pub offset : ℕ
  pub fills : List Fill

abbrev pub empty : Report
empty = record { offset = 0; fills = [] }

-- snprintf returns the length of the whole text, also where it cuts it; `buffer_size - offset` is
-- a `size_t` and wraps around.
unfoldable pub append : ℕ → Bytes → Report → Report
append capacity text r = record {
  offset = r.offset + length text;
  fills =
      r.fills
      ++ (record { at = r.offset; room = (capacity + 2 ^ 64 - r.offset) % 2 ^ 64; text = text }
          ∷ []);
}

-- The bytes that the call stores, the NUL included.
abbrev pub stored : Fill → ℕ
stored f = if ltb (length f.text) f.room then length f.text + 1 else f.room

abbrev pub InBounds : ℕ → Fill → Type 0
InBounds capacity f = f.at + stored f ≤ capacity

-- All the text, in the order of the calls.
unfoldable pub full_text : List Fill → Bytes
full_text [] = []
full_text (f ∷ fs) = f.text ++ full_text fs

-- What has been written fits, is not cut, and ends at the offset.
pub record Fits (capacity limit : ℕ) (r : Report) : Type 0 where
  pub below : r.offset ≤ limit
  pub bounded : All (InBounds capacity) r.fills
  pub whole : length (full_text r.fills) ≡ r.offset

pub full_text-append :
    (xs ys : List Fill)
    → length (full_text (xs ++ ys)) ≡ length (full_text xs) + length (full_text ys)
unfolding full_text
full_text-append [] ys = omega arith
full_text-append (f ∷ xs) ys = omega (
  arith,
  length-append f.text (full_text (xs ++ ys)),
  length-append f.text (full_text xs),
  full_text-append xs ys,
)

pub append-Fits :
    (capacity limit limit' : ℕ) (text : Bytes) (r : Report)
    → Fits capacity limit r
    → limit + length text ≤ limit'
    → limit' < capacity
    → capacity < 2 ^ 64
    → Fits capacity limit' (append capacity text r)
unfolding append full_text
append-Fits capacity limit limit' text r h k b c = record {
  below = omega arith;
  bounded = All-append (InBounds capacity) r.fills _ h.bounded (ground arith, tt);
  whole = omega (
    arith,
    full_text-append r.fills (
        record { at = r.offset; room = (capacity + 2 ^ 64 - r.offset) % 2 ^ 64; text = text } ∷ []),
    length-append text [],
  );
}

pub Fits-weaken :
    {capacity limit : ℕ} {r : Report} (limit' : ℕ)
    → Fits capacity limit r
    → limit ≤ limit'
    → Fits capacity limit' r
Fits-weaken limit' h k = record { below = omega arith; bounded = h.bounded; whole = h.whole }
