-- ===== src/Args/Trust.antt =====
-- Strict mode: the trust sources are accepted only as written.
use pam_ssh_agent.Common.{
  ◌++◌, subst, Bytes, codes, bytes_eq, List, [], ◌∷◌, true, false, ok, ◌≡◌, refl, ◌∙◌, arith, All,
  contains, split_once, Bool-cases, inl, inr, bytes_eq_sound, >>=-eq-ok,
}
use pam_ssh_agent.Environment.{Environment, PamHandleExt}
use pam_ssh_agent.Args.{
  Args, Locals, check_trust_source, validate_trust_source_argument, interpret, step, parse_loop,
  initial, parse, strict_flag,
}
use pam_ssh_agent.Args.Loop.{assign-ok, step-ok, interpret-flags, parse-ok}
use pam_ssh_agent.Args.Outcome.{parse-flags}

-- The value of a trust source has no home directory.
abbrev pub HasNoHome : Bytes → Type 0
HasNoHome value = (contains value (codes "~") ≡ false) × (contains value (codes "%h") ≡ false)

-- The path of a helper has no other variable either.
abbrev pub HasNoVariable : Bytes → Type 0
HasNoVariable value =
    HasNoHome value
    × (contains value (codes "%u") ≡ false)
    × (contains value (codes "%U") ≡ false)
    × (contains value (codes "%H") ≡ false)
    × (contains value (codes "%f") ≡ false)

-- An argument that is written with the key of a trust source has such a value.
abbrev pub IsTrusted : Bytes → Type 0
IsTrusted argument =
    (value : Bytes)
    → (argument ≡ codes "file=" ++ value → HasNoHome value)
      × (argument ≡ codes "ca_keys_file=" ++ value → HasNoHome value)
      × (argument ≡ codes "authorized_keys_command=" ++ value → HasNoVariable value)

check_file :
    (value : Bytes)
    → validate_trust_source_argument (codes "file=" ++ value) ≡ ok tt
    → HasNoHome value
unfolding validate_trust_source_argument check_trust_source split_once bytes_eq
check_file value h = ground arith

check_ca_keys_file :
    (value : Bytes)
    → validate_trust_source_argument (codes "ca_keys_file=" ++ value) ≡ ok tt
    → HasNoHome value
unfolding validate_trust_source_argument check_trust_source split_once bytes_eq
check_ca_keys_file value h = ground arith

check_command :
    (value : Bytes)
    → validate_trust_source_argument (codes "authorized_keys_command=" ++ value) ≡ ok tt
    → HasNoVariable value
unfolding validate_trust_source_argument check_trust_source split_once bytes_eq
check_command value h = ground arith

validate-IsTrusted :
    (argument : Bytes) → validate_trust_source_argument argument ≡ ok tt → IsTrusted argument
validate-IsTrusted argument h value = (
  λ e. check_file value (subst (λ a. validate_trust_source_argument a ≡ ok tt) e h),
  λ e. check_ca_keys_file value (subst (λ a. validate_trust_source_argument a ≡ ok tt) e h),
  λ e. check_command value (subst (λ a. validate_trust_source_argument a ≡ ok tt) e h),
)

-- The flags are no trust sources.
flags_accepted :
    (validate_trust_source_argument (codes "debug") ≡ ok tt)
    × (validate_trust_source_argument (codes "strict") ≡ ok tt)
    × (validate_trust_source_argument (codes "sshd_shortcut") ≡ ok tt)
unfolding validate_trust_source_argument split_once
flags_accepted = (refl, refl, refl)

module _ (env : Environment) (handle : PamHandleExt) where
  interpret-IsTrusted :
      (argument : Bytes) (l : Locals) {l' : Locals}
      → l.strict ≡ true
      → interpret env handle argument l ≡ ok l'
      → IsTrusted argument
  unfolding interpret
  interpret-IsTrusted argument l {l'} strict h =
      validate-IsTrusted argument (elim (Bool-cases (bytes_eq argument (codes "debug"))) [
        | inl e ↦ rw (bytes_eq_sound argument (codes "debug") e) flags_accepted.0
        | inr d ↦ elim (Bool-cases (bytes_eq argument (codes "strict"))) [
          | inl e ↦ rw (bytes_eq_sound argument (codes "strict") e) flags_accepted.1
          | inr t ↦ elim (Bool-cases (bytes_eq argument (codes "sshd_shortcut"))) [
            | inl e ↦ rw (bytes_eq_sound argument (codes "sshd_shortcut") e) flags_accepted.2
            | inr s ↦ (assign-ok env handle argument l {l' = l'} (ground arith)).2 strict
          ]
        ]
      ])

  parse_loop-IsTrusted :
      (args : List Bytes) (l : Locals) {l' : Locals}
      → l.strict ≡ true
      → parse_loop env handle args l ≡ ok l'
      → All IsTrusted args
  unfolding parse_loop
  parse_loop-IsTrusted [] l strict h = tt
  parse_loop-IsTrusted (argument ∷ rest) l strict h =
      let (m, e, k) = >>=-eq-ok (step env handle argument l) _ h in
      let now = step-ok env handle argument l e in
      let (_, keep, _) = interpret-flags env handle argument l now in
      (interpret-IsTrusted argument l strict now, parse_loop-IsTrusted rest m (keep ∙ strict) k)

-- If strict mode is on behind the parsing, then every argument that is written with the key `file`,
-- `ca_keys_file` or `authorized_keys_command`, as it stands before the expansion, has no `~` and no
-- `%h` in its value, and the last of them none of the variables `%u`, `%U`, `%H` and `%f` either.
-- Nothing is said of an argument whose key comes out of the expansion of a variable.
pub parse-IsTrusted :
    (args : List Bytes) (env : Environment) (handle : PamHandleExt) {a : Args}
    → parse args env handle ≡ ok a
    → a.strict ≡ true
    → All IsTrusted args
parse-IsTrusted args env handle {a} h strict =
    let p = parse-ok args env handle h in
    parse_loop-IsTrusted env handle args (initial (strict_flag args))
      (ground (arith, parse-flags args env handle {a = a} h)) p.looped
