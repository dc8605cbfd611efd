-- ===== src/Log.antt =====
-- src/utils/utils.c: the log. The level is the static variable current_log_level; a message comes
-- with its text, which vfprintf makes of the format and its arguments.
pub mod Lines
pub mod Colors
use cruntm.Base.{
  ℕ, zero, suc, ◌+◌, ◌-◌, ◌*◌, ◌/◌, ◌%◌, ◌^◌, ◌≤◌, ◌<◌, ◌≡◌, refl, sym, ap, ◌∙◌, ◌≢◌, ◌⊎◌, ◌↔◌, inl,
  inr, Bool, true, false, not, ◌&&◌, ◌||◌, Option, none, some, List, [], ◌∷◌, ◌++◌, append-nil,
  append_assoc, arith, take, drop, get_elem?, length, map, length-append, length-take-le,
  take-eq_self, All, All-append, backwards, ltb, leb, ◌==◌, ltb→lt, leb→le, ==_iff, Bool-cases,
  Option-cases, if◌then◌else◌,
}
use cruntm.Text.{Bytes, codes, snprintf, decimal}
use cruntm.Types.{LogLevel, debug, info, warn, error_level, fatal}
use cruntm.Host.{
  Host, M, pure, ◌>>=◌, ◌>>◌, call, gettimeofday, isatty, print_err, flush_err, exit, Reply, result,
}

-- The numbers of the enumeration.
abbrev pub level_number : LogLevel → ℕ
level_number debug = 0
level_number info = 1
level_number warn = 2
level_number error_level = 3
level_number fatal = 4

abbrev pub initial_log_level : LogLevel
initial_log_level = info

-- level_strings[level].
unfoldable pub level_string : LogLevel → Bytes
level_string debug = codes "DEBUG"
level_string info = codes "INFO"
level_string warn = codes "WARN"
level_string error_level = codes "ERROR"
level_string fatal = codes "FATAL"

abbrev pub escape : Bytes → Bytes
escape text = 0o33 ∷ b'[' ∷ text

abbrev pub color_reset : Bytes
color_reset = escape (codes "0m")

abbrev pub color_gray : Bytes
color_gray = escape (codes "90m")

-- level_colors[level].
unfoldable pub level_color : LogLevel → Bytes
level_color debug = color_gray
level_color info = escape (codes "34m")
level_color warn = escape (codes "33m")
level_color error_level = escape (codes "31m")
level_color fatal = escape (codes "31m")

-- The new value of current_log_level, whatever the old one is.
unfoldable pub cr_set_log_level : LogLevel → LogLevel → LogLevel
cr_set_log_level level current = level

-- `%03ld` of a number below 1000.
unfoldable pub three_digits : ℕ → Bytes
three_digits n = (b'0' + n / 100 % 10) ∷ (b'0' + n / 10 % 10) ∷ (b'0' + n % 10) ∷ []

unfoldable pub spaces : ℕ → Bytes
spaces zero = []
spaces (suc n) = b' ' ∷ spaces n

-- `%-5s`.
unfoldable pub left_five : Bytes → Bytes
left_five text = text ++ spaces (5 - length text)

-- The text in front of the message.
unfoldable pub header : Bool → Bytes → LogLevel → Bytes
header true timestamp level =
    color_gray
    ++ (b'['
        ∷ (timestamp
            ++ (codes "] "
                ++ (level_color level
                    ++ (left_five (level_string level) ++ (color_reset ++ codes " "))))))
header false timestamp level =
    b'[' ∷ (timestamp ++ (codes "] " ++ (left_five (level_string level) ++ codes " ")))

-- Whether the caller goes on.
pub data Logged : Type 0 where
  returned exits : Logged

-- if (level == LOG_FATAL) exit(1);
unfoldable pub exit_if_fatal : Host → LogLevel → M Logged
exit_if_fatal H fatal = do call H (exit 1); pure exits
exit_if_fatal H _ = pure returned

-- localtime and strftime of the C library: the text "%Y-%m-%d %H:%M:%S" of a number of seconds.
module _ (H : Host) (local_time : ℕ → Bytes) where
  -- The answer of gettimeofday is the time in microseconds.
  unfoldable pub get_timestamp : ℕ → M Bytes
  get_timestamp size = do
    now ← call H gettimeofday
    let text = local_time (result now / 1000000)
    pure (text ++ snprintf (size - length text) (b'.' ∷ three_digits (result now % 1000000 / 1000)))

  -- With the level that is current.
  unfoldable pub cr_log : LogLevel → LogLevel → Bytes → M Logged
  cr_log current level message =
      if ltb (level_number level) (level_number current) then pure returned else (do
        timestamp ← get_timestamp 32
        terminal ← call H (isatty 2)
        call H (print_err (header (not (result terminal == 0)) timestamp level))
        call H (print_err message)
        call H (print_err (codes "\n"))
        call H flush_err
        exit_if_fatal H level)
