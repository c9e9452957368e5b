-- ===== src/Logging.antt =====
-- src/logging.rs: the state of the logger (the lock's flag and the thread's debug flag) and the
-- escaping of messages. Characters are code points here. The syslog connection is a parameter.
pub mod Escape
pub mod Unescape
pub mod Records
pub mod Threads
use pam_ssh_agent.Common.{
  ℕ, ◌+◌, ◌-◌, ◌/◌, ◌%◌, Bytes, codes, [], ◌∷◌, ◌++◌, Bool, true, false, ◌&&◌, ◌||◌, ◌==◌, leb, ltb,
  if◌then◌else◌, Result, ok, err,
}

-- `LOG_LOCK` and `REQUEST_DEBUG`.
pub record LogState : Type 0 where
  pub initialised : Bool
  pub request_debug : Bool

unfoldable pub settle : Result (Unit {0}) → LogState → Result (Unit {0}) × LogState
settle (ok _) s = (ok tt, record s { initialised = true })
settle (err e) s = (err e, s)

-- The connection to syslog is made at most once: a failure leaves it to the next call.
unfoldable pub init_logging : Result (Unit {0}) → LogState → Result (Unit {0}) × LogState
init_logging init_impl s = if s.initialised then (ok tt, s) else settle init_impl s

pub data Level : Type 0 where
  error warn info debug trace : Level

-- `Log::enabled`
abbrev enabled : LogState → Level → Bool
enabled s error = true
enabled s warn = true
enabled s info = true
enabled s debug = s.request_debug
enabled s trace = false

-- `char::is_control`: the general category Cc.
pub is_control : ℕ → Bool
is_control c = leb c 0x1f || (leb 0x7f c && leb c 0x9f)

pub hex_digit : ℕ → ℕ
hex_digit d = if ltb d 10 then b'0' + d else b'a' + (d - 10)

-- `{:x}` of a control character, which is below 256.
pub lower_hex : ℕ → Bytes
lower_hex c = if ltb c 16 then hex_digit c ∷ [] else hex_digit (c / 16) ∷ hex_digit (c % 16) ∷ []

pub escape_character : ℕ → Bytes
escape_character c =
    if c == b'\\'
    then b'\\' ∷ b'\\' ∷ []
    else if c == b'\n'
    then b'\\' ∷ b'n' ∷ []
    else if c == b'\r'
    then b'\\' ∷ b'r' ∷ []
    else if c == b'\t'
    then b'\\' ∷ b't' ∷ []
    else if is_control c
    then codes "\\u{" ++ (lower_hex c ++ b'}' ∷ [])
    else c ∷ []

pub escape_log_value : Bytes → Bytes
escape_log_value [] = []
escape_log_value (c ∷ s) = escape_character c ++ escape_log_value s
