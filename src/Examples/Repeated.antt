-- ===== src/Examples/Repeated.antt =====
-- Arguments that are named twice, and one whose key is a variable.
use pam_ssh_agent.Common.{
  some, false, Bytes, codes, bytes_eq, List, [], ◌∷◌, true, ok, ◌>>=◌, ◌≡◌, refl, from_utf8,
  strip_prefix, split_once, find, contains,
}
use pam_ssh_agent.Environment.Unix.{Host, unix_environment, to_string_lossy}
use pam_ssh_agent.Expansions.{expand_vars, expand_var, expand_homedir, get_username, until_slash}
use pam_ssh_agent.Args.{
  validate_trust_source_argument, check_trust_source, default_args, parse, strict_flag, initial,
  parse_loop, step, interpret, assign, expand_and_set, set_parameter, note_per_user, check_strict,
}
use pam_ssh_agent.Args.Settings.{read_arguments, chosen}
use pam_ssh_agent.Args.Settings.Last.{parse_by_last}
use pam_ssh_agent.Examples.Setting.{sample_host, handle_for}

abbrev repeated : List Bytes
repeated = codes "file=/a" ∷ codes "debug" ∷ codes "file=/b" ∷ []

parse_by_last_example :
    parse repeated (unix_environment sample_host) (handle_for (codes "eve") (codes "sudo")) ≡ (
      read_arguments
        (strict_flag repeated)
        (unix_environment sample_host)
        (handle_for (codes "eve") (codes "sudo"))
        repeated
      >>= λ rs. check_strict (chosen (initial (strict_flag repeated)) rs))
parse_by_last_example =
    parse_by_last repeated (unix_environment sample_host) (handle_for (codes "eve") (codes "sudo"))

-- The last one counts.
repeated_parsed :
    parse repeated (unix_environment sample_host) (handle_for (codes "eve") (codes "sudo"))
    ≡ ok (record default_args { debug = true; file = codes "/b" })
unfolding parse parse_loop step interpret assign expand_and_set set_parameter note_per_user
    check_strict expand_vars expand_var expand_homedir bytes_eq strip_prefix split_once find
    contains from_utf8 unix_environment
repeated_parsed = refl

-- A host with an account that has the name of a parameter.
abbrev odd_host : Host
odd_host = record sample_host {
  get_user_by_name =
      λ _. some (record { name = codes "file"; uid = 1000; home_dir = codes "/home/file" });
}

abbrev variable_key : List Bytes
variable_key = codes "strict" ∷ codes "file=/k/%u" ∷ codes "%u=~/x" ∷ []

-- The tests of strict mode look at the key as it is written: one that only the expansion makes a
-- `file` may name a path in a home directory.
variable_key_parsed :
    parse variable_key (unix_environment odd_host) (handle_for (codes "file") (codes "sudo"))
    ≡ ok (record default_args {
      file = codes "/home/file/x";
      strict = true;
      sshd_shortcut = false;
      agent_timeout = some 30;
    })
unfolding parse parse_loop step interpret assign expand_and_set set_parameter note_per_user
    check_strict expand_vars expand_var expand_homedir bytes_eq strip_prefix split_once find
    contains from_utf8 unix_environment to_string_lossy validate_trust_source_argument
    check_trust_source get_username until_slash
variable_key_parsed = refl
