-- ===== src/Logging/Records.antt =====
-- The line that the formatter writes and the severity it is written with: `PrefixFormatter` and
-- `PrefixWrappingLogger::log`. The syslog formatter, its methods and the backend are parameters.
use pam_ssh_agent.Common.{
  ℕ, Bytes, codes, [], ◌∷◌, ◌++◌, Bool, true, false, not, ◌&&◌, and_split, ◌≡◌, refl, All,
  All-append, arith,
}
use pam_ssh_agent.Logging.{Level, error, warn, info, debug, trace, is_control, escape_log_value}
use pam_ssh_agent.Logging.Escape.{IsClean, escape_log_value-IsClean}

-- The severities of the crate `syslog` that the logger's methods write with.
pub data Severity : Type 0 where
  log_err log_warning log_info log_debug : Severity

-- `PrefixFormatter`: the formatter of the crate `syslog` and the prefix.
pub record PrefixFormatter : Type 0 where
  pub inner : Severity → Bytes → Bytes
  pub prefix : Bytes

prefix_of : Bytes → Bytes
prefix_of pam_service = codes "pam_ssh_agent(" ++ (escape_log_value pam_service ++ codes ":auth): ")

-- `PrefixFormatter::new`
pub new_formatter : (Severity → Bytes → Bytes) → Bytes → PrefixFormatter
new_formatter inner pam_service = record { inner = inner; prefix = prefix_of pam_service }

-- `PrefixFormatter::format`
pub format : PrefixFormatter → Severity → Bytes → Bytes
format f severity message = f.inner severity (f.prefix ++ escape_log_value message)

pub severity : Level → Severity
severity error = log_err
severity warn = log_warning
severity info = log_info
severity debug = log_debug
severity trace = log_debug

-- `Log::log`: what is written to the backend. The method does not ask `enabled`.
pub log : PrefixFormatter → Level → Bytes → Bytes
log f level message = format f (severity level) message

IsControlFree : ℕ → Type 0
IsControlFree c = is_control c ≡ false

is_clean : Bytes → Bool
is_clean [] = true
is_clean (c ∷ s) = not (is_control c) && is_clean s

is_clean-IsClean : (s : Bytes) → is_clean s ≡ true → All IsControlFree s
unfolding is_clean IsControlFree
is_clean-IsClean [] h = tt
is_clean-IsClean (c ∷ s) h = (
  not_true ((and_split (not (is_control c)) (is_clean s) h).0),
  is_clean-IsClean s ((and_split (not (is_control c)) (is_clean s) h).1),
)
  where
    not_true : {b : Bool} → not b ≡ true → b ≡ false
    not_true h = ground arith

prefix_of-IsClean : (pam_service : Bytes) → All IsControlFree (prefix_of pam_service)
unfolding IsControlFree prefix_of is_clean is_control
prefix_of-IsClean pam_service =
    All-append IsControlFree (codes "pam_ssh_agent(")
      (escape_log_value pam_service ++ codes ":auth): ")
      (is_clean-IsClean (codes "pam_ssh_agent(") refl)
      (All-append IsControlFree (escape_log_value pam_service) (codes ":auth): ")
        (escape_log_value-IsClean pam_service) (is_clean-IsClean (codes ":auth): ") refl))

-- The severity that syslog has for a level; a trace is a debug record there.
pub data IsSeverityOf : Level → Severity → Type 0 where
  of_error : IsSeverityOf error log_err
  of_warn : IsSeverityOf warn log_warning
  of_info : IsSeverityOf info log_info
  of_debug : IsSeverityOf debug log_debug
  of_trace : IsSeverityOf trace log_debug

severity-IsSeverityOf : (level : Level) → IsSeverityOf level (severity level)
unfolding severity
severity-IsSeverityOf error = of_error
severity-IsSeverityOf warn = of_warn
severity-IsSeverityOf info = of_info
severity-IsSeverityOf debug = of_debug
severity-IsSeverityOf trace = of_trace

-- Whatever the service's name and the message are, one line is handed to the syslog formatter, with
-- the severity of the record's level (errors, warnings and information as such, debug and trace
-- records as debug), and no control character stands in it.
pub log-IsClean :
    (inner : Severity → Bytes → Bytes) (pam_service : Bytes) (level : Level) (message : Bytes)
    → (s : Severity) × (line : Bytes) × IsSeverityOf level s
      × (log (new_formatter inner pam_service) level message ≡ inner s line)
      × IsClean line
unfolding log format new_formatter IsControlFree
log-IsClean inner pam_service level message = (
  severity level,
  prefix_of pam_service ++ escape_log_value message,
  severity-IsSeverityOf level,
  refl,
  All-append IsControlFree (prefix_of pam_service) (escape_log_value message)
      (prefix_of-IsClean pam_service) (escape_log_value-IsClean message),
)
