-- ===== src/Logger.antt =====
-- Logger of include/common/logger.h and the macro LOG_EVERY_N. What the C library makes of the time
-- and of the format with its arguments are texts that `log` is given; it gives back what it writes to stderr.
pub mod Sampling
mod Tests
use l7_loadbalancer.Base.{
  ℕ, ◌+◌, Bool, true, false, ◌||◌, List, [], ◌∷◌, ◌++◌, Option, none, some, leb, ◌==◌,
  if◌then◌else◌, take,
}
use l7_loadbalancer.Text.{to_string}
use l7_loadbalancer.Text.Strings.{codes, text_beq}

pub data LogLevel : Type 0 where
  debug info warn error fatal off : LogLevel

-- `static_cast<int>(level)`
unfoldable pub level_number : LogLevel → ℕ
level_number debug = 0
level_number info = 1
level_number warn = 2
level_number error = 3
level_number fatal = 4
level_number off = 5

pub record Logger : Type 0 where
  pub level : LogLevel

unfoldable pub new : Logger
new = record { level = info }

unfoldable pub set_level : Logger → LogLevel → Logger
set_level l level = record l { level = level }

-- The other overload, which leaves the level where the text names none.
unfoldable pub set_level_text : Logger → List ℕ → Logger
set_level_text l text =
    if text_beq text (codes "debug")
    then set_level l debug
    else if text_beq text (codes "info")
    then set_level l info
    else if text_beq text (codes "warn")
    then set_level l warn
    else if text_beq text (codes "error")
    then set_level l error
    else if text_beq text (codes "fatal")
    then set_level l fatal
    else if text_beq text (codes "off")
    then set_level l off
    else l

unfoldable pub is_enabled : Logger → LogLevel → Bool
is_enabled l level = leb (level_number l.level) (level_number level)

unfoldable pub get_level_str : LogLevel → List ℕ
get_level_str debug = codes "DEBUG"
get_level_str info = codes "INFO "
get_level_str warn = codes "WARN "
get_level_str error = codes "ERROR"
get_level_str fatal = codes "FATAL"
get_level_str off = codes "?????"

abbrev pub is_separator : ℕ → Bool
is_separator c = c == b'/' || c == b'\\'

-- The loop over the path, with what `filename` points to first.
unfoldable pub file_name_from : List ℕ → List ℕ → List ℕ
file_name_from name [] = name
file_name_from name (c ∷ p) = file_name_from (if is_separator c then p else name) p

unfoldable pub file_name : List ℕ → List ℕ
file_name file = file_name_from file file

-- The line that is written; the buffer of the message has room for 1023 bytes.
unfoldable pub log_line : List ℕ → LogLevel → List ℕ → ℕ → List ℕ → List ℕ → List ℕ
log_line time level file line func message =
    codes "["
    ++ time
    ++ codes "] ["
    ++ get_level_str level
    ++ codes "] ["
    ++ file_name file
    ++ codes ":"
    ++ to_string line
    ++ codes " "
    ++ func
    ++ codes "] "
    ++ take 1023 message
    ++ b'\n' ∷ []

unfoldable pub log : Logger → List ℕ → LogLevel → List ℕ → ℕ → List ℕ → List ℕ → Option (List ℕ)
log l time level file line func message =
    if is_enabled l level then some (log_line time level file line func message) else none

-- LOG_EVERY_N: the counter, and whether it logs this time.
unfoldable pub every_n : ℕ → ℕ → ℕ × Bool
every_n n count = if leb n (count + 1) then (0, true) else (count + 1, false)
