-- ===== src/Utils.antt =====
-- src/utils/utils.c: identifiers, sizes and texts.
pub mod Trim
pub mod Split
pub mod Size
pub mod Format
pub mod Files
pub mod Identifier
use Prim.Native.Nat.{bit_xor}
use cruntm.Base.{
  ℕ, zero, suc, ◌+◌, ◌-◌, ◌*◌, ◌/◌, ◌%◌, ◌^◌, ◌≤◌, ◌<◌, ◌≡◌, refl, sym, ap, ◌∙◌, ◌≢◌, ◌⊎◌, ◌↔◌, inl,
  inr, Bool, true, false, not, ◌&&◌, ◌||◌, Option, none, some, List, [], ◌∷◌, ◌++◌, append-nil,
  append_assoc, arith, take, length, map, length-append, length-take-le, take-eq_self, All,
  backwards, ltb, leb, ◌==◌, ltb→lt, leb→le, ==_iff, Bool-cases, if◌then◌else◌, drop,
}
use cruntm.Base.Int.{ℤ, pos, negsuc}
use cruntm.Text.{Bytes, codes, snprintf, print_int, strchr}
use cruntm.Types.{Code, ok, esyscall}
use cruntm.Host.{
  Host, M, pure, ◌>>=◌, ◌>>◌, call, delivered, access, time, getpid, srand, rand, fopen, fseek_end,
  ftell, fseek_start, malloc, fread, uninitialised, fputs, fclose, Reply, is_failure, result,
}

-- The space, the tab, the line feed and the carriage return.
unfoldable pub is_blank : ℕ → Bool
is_blank c = c == b' ' || c == b'\t' || c == b'\n' || c == b'\r'

unfoldable pub trim_leading : Bytes → Bytes
trim_leading [] = []
trim_leading (c ∷ cs) = let rest = trim_leading cs in if is_blank c then rest else c ∷ cs

abbrev pub keep_or_end : ℕ → Bytes → Bytes
keep_or_end c [] = if is_blank c then [] else c ∷ []
keep_or_end c (d ∷ ds) = c ∷ d ∷ ds

unfoldable pub trim_trailing : Bytes → Bytes
trim_trailing [] = []
trim_trailing (c ∷ cs) = keep_or_end c (trim_trailing cs)

-- The loop over `end` stops at the first byte, which is kept.
abbrev pub trim_behind_first : Bytes → Bytes
trim_behind_first [] = []
trim_behind_first (c ∷ cs) = c ∷ trim_trailing cs

unfoldable pub trim_whitespace : Bytes → Bytes
trim_whitespace str = trim_behind_first (trim_leading str)

-- For a delimiter other than NUL, which strchr would find at the end of the text.
-- The loop over `token`, with the tokens that there is still room for.
unfoldable pub split_string : ℕ → ℕ → Bytes → List Bytes
split_string delimiter zero token = []
split_string delimiter (suc room) token = elim (strchr delimiter token) [
  | none ↦ trim_whitespace token ∷ []
  | some (before, next) ↦ trim_whitespace before ∷ split_string delimiter room next
]

-- charset[n] for n < 16.
unfoldable pub hex_digit : ℕ → ℕ
hex_digit n = if ltb n 10 then b'0' + n else b'a' + (n - 10)

unfoldable pub hex_text : Bytes → Bytes
hex_text [] = []
hex_text (b ∷ bs) = hex_digit (b % 16) ∷ hex_text bs

-- An array of n bytes behind a read of `bytes` into it: what follows them is what it held before.
unfoldable pub overwrite : ℕ → Bytes → Bytes → Bytes
overwrite zero bytes old = []
overwrite (suc n) [] [] = 0 ∷ overwrite n [] []
overwrite (suc n) [] (o ∷ old) = o ∷ overwrite n [] old
overwrite (suc n) (b ∷ bytes) [] = b ∷ overwrite n bytes []
overwrite (suc n) (b ∷ bytes) (o ∷ old) = b ∷ overwrite n bytes old

module _ (H : Host) where
  unfoldable pub random_text : ℕ → M Bytes
  random_text zero = pure []
  random_text (suc n) = do
    r ← call H rand
    rest ← random_text n
    pure (hex_digit (result r % 16) ∷ rest)

  -- The text in a buffer of `size` zeros.
  unfoldable pub generate_id : ℕ → M Bytes
  generate_id size = do
    opened ← call H (fopen (codes "/dev/urandom") (codes "r"))
    if is_failure opened
        then (do
          now ← call H time
          pid ← call H getpid
          call H (srand (bit_xor (result now) (result pid)))
          random_text (size - 1))
        else (do
          old ← delivered H (uninitialised 32)
          random_bytes ← delivered H (fread (result opened) 32)
          call H (fread (result opened) 32)
          call H (fclose (result opened))
          pure (take (size - 1) (hex_text (overwrite 32 random_bytes old))))

  unfoldable pub file_exists : Bytes → M Bool
  file_exists path = do found ← call H (access path); pure (not (is_failure found))

  -- The text of the file, or NULL.
  unfoldable pub read_file : Bytes → M (Option Bytes)
  read_file path = do
    opened ← call H (fopen path (codes "r"))
    if is_failure opened then pure none else do
      call H (fseek_end (result opened))
      size ← call H (ftell (result opened))
      call H (fseek_start (result opened))
      buffer ← call H (malloc (result size + 1))
      if is_failure buffer then (do call H (fclose (result opened)); pure none) else (do
        text ← delivered H (fread (result opened) (result size))
        call H (fread (result opened) (result size))
        call H (fclose (result opened))
        pure (some (take (result size) text)))

  unfoldable pub write_file : Bytes → Bytes → M Code
  write_file path content = do
    opened ← call H (fopen path (codes "w"))
    if is_failure opened
        then pure esyscall
        else do call H (fputs content (result opened)); call H (fclose (result opened)); pure ok

-- The switch over the byte behind the number.
unfoldable pub multiplier_of : Bytes → Option ℕ
multiplier_of [] = some 1
multiplier_of (c ∷ cs) =
    if c == b'K' || c == b'k'
    then some 1024
    else if c == b'M' || c == b'm'
    then some (1024 * 1024)
    else if c == b'G' || c == b'g'
    then some (1024 * 1024 * 1024)
    else if c == b'T' || c == b't'
    then some (1024 * 1024 * 1024 * 1024)
    else none

-- The C library's doubles, as far as the program uses them: strtod gives the number and the length
-- of the text that it has read, and `scaled` is (int64_t)(value * factor); `print_two` is `%.2f`.
pub record Doubles : Type 1 where
  pub Double : Type 0
  pub strtod : Bytes → Double × ℕ
  pub scaled : Double → ℕ → ℤ
  pub of_int : ℤ → Double
  pub at_least_1024 : Double → Bool
  pub div_1024 : Double → Double
  pub print_two : Double → Bytes

-- units[unit_idx].
unfoldable pub unit_name : ℕ → Bytes
unit_name idx =
    if idx == 0
    then codes "B"
    else if idx == 1
    then codes "KB"
    else if idx == 2
    then codes "MB"
    else if idx == 3
    then codes "GB"
    else codes "TB"

module _ (D : Doubles) where
  abbrev scaled_or_error : Doubles.Double D → Option ℕ → ℤ
  scaled_or_error value none = negsuc 0
  scaled_or_error value (some multiplier) = D.scaled value multiplier

  unfoldable pub parse_size : Bytes → ℤ
  parse_size str =
      let (value, consumed) = D.strtod str in
      if consumed == 0 then negsuc 0 else scaled_or_error value (multiplier_of (drop consumed str))

  -- The loop over `value` with the rounds that `unit_idx < 4` leaves; the number and the last index.
  unfoldable pub scale_down : ℕ → Doubles.Double D → ℕ → Doubles.Double D × ℕ
  scale_down zero value unit_idx = (value, unit_idx)
  scale_down (suc rounds) value unit_idx =
      let next = scale_down rounds (D.div_1024 value) (unit_idx + 1) in
      if D.at_least_1024 value then next else (value, unit_idx)

  -- The text in the buffer.
  unfoldable pub format_size : ℤ → ℕ → Bytes
  format_size bytes size =
      let (value, unit_idx) = scale_down 4 (D.of_int bytes) 0 in
      snprintf size (
        if unit_idx == 0
        then print_int bytes ++ (b' ' ∷ unit_name unit_idx)
        else D.print_two value ++ (b' ' ∷ unit_name unit_idx))
