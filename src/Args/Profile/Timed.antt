-- ===== src/Args/Profile/Timed.antt =====
-- The strict profile with a timeout of its own: `strict file=<path with %u> agent_timeout=<n>`.
use pam_ssh_agent.Common.{
  ℕ, ◌≤◌, ◌<◌, Bytes, codes, bytes_eq, [], ◌∷◌, ◌++◌, true, false, some, ok, ◌≡◌, refl, arith,
  split_once, strip_prefix, from_utf8, Lacks, All, All-append, ◌≢◌, ltb, to_string,
  to_string-digits, parse_u64-to_string, IsDigit, valid_utf8-ascii,
}
use pam_ssh_agent.Environment.{Environment, PamHandleExt}
use pam_ssh_agent.Expansions.{expand_vars}
use pam_ssh_agent.Expansions.Laws.{expand_vars-plain}
use pam_ssh_agent.Args.{
  default_args, check_trust_source, validate_trust_source_argument, set_parameter, note_per_user,
  parse_timeout, expand_and_set, assign, interpret, step, parse_loop, check_strict, parse,
}
use pam_ssh_agent.Args.Profile.{
  per_user_file, per_user-noted, per_user-accepted, per_user-expanded, strict_utf8,
}

abbrev pub timeout_argument : ℕ → Bytes
timeout_argument n = codes "agent_timeout=" ++ to_string n

digits-Lacks : (b : ℕ) (s : Bytes) → b'9' < b → All IsDigit s → Lacks b s
digits-Lacks b [] h all_digits = tt
digits-Lacks b (c ∷ s) h ((low, high), rest) = (omega arith, digits-Lacks b s h rest)

low-Lacks : (b : ℕ) (s : Bytes) → b < b'0' → All IsDigit s → Lacks b s
low-Lacks b [] h all_digits = tt
low-Lacks b (c ∷ s) h ((low, high), rest) = (omega arith, low-Lacks b s h rest)

digits-ascii : (s : Bytes) → All IsDigit s → All (λ c. ltb c 0x80 ≡ true) s
digits-ascii [] all_digits = tt
digits-ascii (c ∷ s) ((low, high), rest) = (ground arith, digits-ascii s rest)

ascii_key : All (λ c. ltb c 0x80 ≡ true) (codes "agent_timeout=")
ascii_key = (
  refl,
  (
    refl,
    (
      refl,
      (refl, (refl, (refl, (refl, (refl, (refl, (refl, (refl, (refl, (refl, (refl, tt))))))))))),
    ),
  ),
)

timeout-utf8 : (n : ℕ) → from_utf8 (timeout_argument n) ≡ ok (timeout_argument n)
unfolding from_utf8
timeout-utf8 n =
    rw
      (valid_utf8-ascii (timeout_argument n) (
        All-append (λ c. ltb c 0x80 ≡ true) (codes "agent_timeout=") (to_string n) ascii_key
          (digits-ascii (to_string n) (to_string-digits n))))
      refl

timeout-expanded :
    (n : ℕ) (env : Environment) (handle : PamHandleExt)
    → expand_vars (timeout_argument n) env handle ≡ ok (timeout_argument n)
timeout-expanded n env handle =
    expand_vars-plain (timeout_argument n) env handle
      (All-append (λ c. c ≢ b'~') (codes "agent_timeout=") (to_string n) (omega arith)
        (digits-Lacks b'~' (to_string n) (omega arith) (to_string-digits n)))
      (All-append (λ c. c ≢ b'%') (codes "agent_timeout=") (to_string n) (omega arith)
        (low-Lacks b'%' (to_string n) (omega arith) (to_string-digits n)))

parse_timeout-to_string : (n : ℕ) → 1 ≤ n → n ≤ 300 → parse_timeout (to_string n) ≡ ok n
unfolding parse_timeout
parse_timeout-to_string n low high = rw (parse_u64-to_string n (omega arith)) (ground arith)

-- For a calling user whose name has no `%`: `strict`, one `file=` path in valid UTF-8 with one `%u`
-- and without `~` or another `%`, and a timeout from 1 to 300 that is written in decimal digits parse
-- to the strict profile with the path of the calling user and that timeout.
pub parse_timed_profile :
    (pre post user : Bytes) (n : ℕ) (env : Environment) (handle : PamHandleExt)
    → Lacks b'%' pre
    → Lacks b'%' post
    → Lacks b'~' (pre ++ b'%' ∷ b'u' ∷ post)
    → Lacks b'%' user
    → handle.get_calling_user ≡ ok user
    → from_utf8 (per_user_file pre post) ≡ ok (per_user_file pre post)
    → 1 ≤ n
    → n ≤ 300
    → parse (codes "strict" ∷ per_user_file pre post ∷ timeout_argument n ∷ []) env handle
      ≡ ok (record default_args {
        file = pre ++ (user ++ post);
        strict = true;
        sshd_shortcut = false;
        agent_timeout = some n;
      })
unfolding parse parse_loop step interpret bytes_eq assign expand_and_set split_once set_parameter
    note_per_user strip_prefix check_strict validate_trust_source_argument check_trust_source
parse_timed_profile pre post user n env handle hp hq tilde hu known utf8 low high =
    rw
      (
        strict_utf8,
        utf8,
        per_user-accepted pre post hp hq tilde,
        per_user-expanded pre post hp hq env handle user tilde hu known,
        timeout-utf8 n,
        timeout-expanded n env handle,
        parse_timeout-to_string n low high,
      )
      (rw (per_user-noted pre post hp hq) refl)
