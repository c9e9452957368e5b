-- ===== src/Args/Profile.antt =====
-- The arguments that README.md gives for strict mode: `strict file=<path with %u>`.
pub mod Timed
use pam_ssh_agent.Common.{
  Bytes, codes, bytes_eq, [], ◌∷◌, ◌++◌, true, false, some, ok, ◌≡◌, refl, arith, contains,
  split_once, strip_prefix, find-none_pair, find-append_pair, contains-Lacks, from_utf8, Lacks,
  All-append, ◌≢◌,
}
use pam_ssh_agent.Environment.{Environment, PamHandleExt}
use pam_ssh_agent.Expansions.{expand_vars}
use pam_ssh_agent.Expansions.Laws.{expand_vars_user}
use pam_ssh_agent.Args.{
  default_args, check_trust_source, validate_trust_source_argument, set_parameter, note_per_user,
  expand_and_set, assign, interpret, step, parse_loop, check_strict, parse,
}

module _ (pre post : Bytes) where
  abbrev pub per_user_file : Bytes
  per_user_file = codes "file=" ++ (pre ++ b'%' ∷ b'u' ∷ post)

  module _ (hp : Lacks b'%' pre) (hq : Lacks b'%' post) where
    pub per_user-noted : contains (pre ++ b'%' ∷ b'u' ∷ post) (codes "%u") ≡ true
    unfolding contains
    per_user-noted =
        rw (
          find-append_pair pre post b'%' b'u' (omega arith)
            (contains-Lacks pre b'%' (b'u' ∷ []) hp))

    per_user-no_home : contains (pre ++ b'%' ∷ b'u' ∷ post) (codes "%h") ≡ false
    unfolding contains
    per_user-no_home = rw (find-none_pair pre post b'%' b'u' b'h' hp hq (omega arith) (omega arith))

    pub per_user-accepted :
        Lacks b'~' (pre ++ b'%' ∷ b'u' ∷ post)
        → validate_trust_source_argument per_user_file ≡ ok tt
    unfolding validate_trust_source_argument check_trust_source split_once bytes_eq
    per_user-accepted tilde =
        rw (contains-Lacks (pre ++ b'%' ∷ b'u' ∷ post) b'~' [] tilde, per_user-no_home)

    pub per_user-expanded :
        (env : Environment) (handle : PamHandleExt) (user : Bytes)
        → Lacks b'~' (pre ++ b'%' ∷ b'u' ∷ post)
        → Lacks b'%' user
        → handle.get_calling_user ≡ ok user
        → expand_vars per_user_file env handle ≡ ok (codes "file=" ++ (pre ++ (user ++ post)))
    per_user-expanded env handle user tilde hu known =
        expand_vars_user (codes "file=" ++ pre) post user env handle
          (All-append (λ c. c ≢ b'~') (codes "file=") (pre ++ b'%' ∷ b'u' ∷ post) (omega arith)
            tilde)
          (All-append (λ c. c ≢ b'%') (codes "file=") pre (omega arith) hp) hq hu known

pub strict_utf8 : from_utf8 (codes "strict") ≡ ok (codes "strict")
unfolding from_utf8
strict_utf8 = refl

-- For a calling user whose name has no `%`, `strict` and one `file=` path with `%u` and without `~`
-- or another `%` parse to the strict profile: the path of the calling user, no sshd shortcut, a timeout of 30 seconds, and the defaults.
pub parse_profile :
    (pre post user : Bytes) (env : Environment) (handle : PamHandleExt)
    → Lacks b'%' pre
    → Lacks b'%' post
    → Lacks b'~' (pre ++ b'%' ∷ b'u' ∷ post)
    → Lacks b'%' user
    → handle.get_calling_user ≡ ok user
    → from_utf8 (per_user_file pre post) ≡ ok (per_user_file pre post)
    → parse (codes "strict" ∷ per_user_file pre post ∷ []) env handle
      ≡ ok (record default_args {
        file = pre ++ (user ++ post);
        strict = true;
        sshd_shortcut = false;
        agent_timeout = some 30;
      })
unfolding parse parse_loop step interpret bytes_eq assign expand_and_set split_once set_parameter
    note_per_user strip_prefix check_strict
parse_profile pre post user env handle hp hq tilde hu known utf8 =
    rw
      (
        strict_utf8,
        utf8,
        per_user-accepted pre post hp hq tilde,
        per_user-expanded pre post hp hq env handle user tilde hu known,
        per_user-noted pre post hp hq,
      )
      refl
