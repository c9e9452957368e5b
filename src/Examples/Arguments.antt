-- ===== src/Examples/Arguments.antt =====
-- The arguments of a call: runs of the parser, and its theorems at them.
use pam_ssh_agent.Common.{
  to_string, ◌↔◌, Bytes, codes, List, [], ◌∷◌, true, false, some, All, ok, ◌≡◌, refl, arith,
  from_utf8, find,
}
use pam_ssh_agent.Environment.Unix.{unix_environment}
use pam_ssh_agent.Expansions.{expand_var}
use pam_ssh_agent.Expansions.Laws.{IsExpanded, expand_var_iff}
use pam_ssh_agent.Args.{Args, default_args, parse}
use pam_ssh_agent.Args.Outcome.{IsBounded, parse-IsBounded}
use pam_ssh_agent.Args.Trust.{IsTrusted, parse-IsTrusted}
use pam_ssh_agent.Args.Profile.Timed.{parse_timed_profile}
use pam_ssh_agent.Args.Profile.{per_user_file, parse_profile}
use pam_ssh_agent.Examples.Setting.{sample_host, handle_for}

abbrev profile : List Bytes
profile = codes "strict" ∷ per_user_file (codes "/etc/keys/") (codes ".pub") ∷ []

abbrev profile_args : Args
profile_args = record default_args {
  file = codes "/etc/keys/eve.pub";
  strict = true;
  sshd_shortcut = false;
  agent_timeout = some 30;
}

profile_utf8 :
    from_utf8 (per_user_file (codes "/etc/keys/") (codes ".pub"))
    ≡ ok (per_user_file (codes "/etc/keys/") (codes ".pub"))
unfolding from_utf8
profile_utf8 = refl

profile_parsed :
    parse profile (unix_environment sample_host) (handle_for (codes "eve") (codes "sudo"))
    ≡ ok profile_args
profile_parsed =
    parse_profile (codes "/etc/keys/") (codes ".pub") (codes "eve") (unix_environment sample_host)
      (handle_for (codes "eve") (codes "sudo")) (omega arith) (omega arith) (omega arith)
      (omega arith) refl profile_utf8

abbrev timed_profile : List Bytes
timed_profile =
    codes "strict"
    ∷ per_user_file (codes "/etc/keys/") (codes ".pub")
    ∷ codes "agent_timeout=120"
    ∷ []

parse_timed_profile_example :
    parse timed_profile (unix_environment sample_host) (handle_for (codes "eve") (codes "sudo"))
    ≡ ok (record profile_args { agent_timeout = some 120 })
unfolding to_string
parse_timed_profile_example =
    parse_timed_profile (codes "/etc/keys/") (codes ".pub") (codes "eve") 120
      (unix_environment sample_host) (handle_for (codes "eve") (codes "sudo")) (omega arith)
      (omega arith) (omega arith) (omega arith) refl profile_utf8 (omega arith) (omega arith)

parse-IsBounded_example : IsBounded true (some 30)
parse-IsBounded_example =
    parse-IsBounded profile (unix_environment sample_host) (handle_for (codes "eve") (codes "sudo"))
      {a = profile_args} profile_parsed

parse-IsTrusted_example : All IsTrusted profile
parse-IsTrusted_example =
    parse-IsTrusted profile (unix_environment sample_host) (handle_for (codes "eve") (codes "sudo"))
      {a = profile_args} profile_parsed refl

user_expanded : expand_var (codes "a%ub%u") (codes "%u") (ok (codes "x")) ≡ ok (codes "axb%u")
unfolding expand_var find
user_expanded = refl

expand_var_iff_example :
    (expand_var (codes "a%ub%u") (codes "%u") (ok (codes "x")) ≡ ok (codes "axb%u"))
    ↔ IsExpanded (codes "a%ub%u") (codes "%u") (ok (codes "x")) (codes "axb%u")
expand_var_iff_example =
    expand_var_iff (codes "a%ub%u") (codes "%u") (ok (codes "x")) (codes "axb%u")
