-- ===== src/Examples/Records.antt =====
-- Lines of the log.
use pam_ssh_agent.Common.{Bytes, codes, ◌∷◌, [], ◌++◌, some, ◌≡◌}
use pam_ssh_agent.Logging.{warn, escape_log_value}
use pam_ssh_agent.Logging.Escape.{IsClean}
use pam_ssh_agent.Logging.Unescape.{unescape, unescape-escape_log_value}
use pam_ssh_agent.Logging.Records.{Severity, new_formatter, IsSeverityOf, log, log-IsClean}

-- A formatter that adds nothing.
abbrev bare : Severity → Bytes → Bytes
bare _ line = line

abbrev forged : Bytes
forged = codes "eve" ++ b'\n' ∷ 27 ∷ b'\\' ∷ 0x9f ∷ []

unescape-escape_log_value_example : unescape (escape_log_value forged) ≡ some forged
unescape-escape_log_value_example = unescape-escape_log_value forged

log-IsClean_example :
    (s : Severity) × (line : Bytes) × IsSeverityOf warn s
    × (log (new_formatter bare (codes "sudo")) warn forged ≡ bare s line)
    × IsClean line
log-IsClean_example = log-IsClean bare (codes "sudo") warn forged
