-- ===== src/Args/Loop.antt =====
-- The loop of `parse`: a rule for invariants, and each step's effect on each field.
use pam_ssh_agent.Common.{
  Bytes, codes, bytes_eq, List, [], ◌∷◌, true, false, ◌||◌, some, ok, ◌≡◌, refl, subst,
  ok_injective, arith, from_utf8, from_utf8-eq-ok, any, >>=-eq-ok, bytes_eq_other, check_if,
  Option-cases, inl, inr, split_once, if◌then◌else◌,
}
use pam_ssh_agent.Environment.{Environment, PamHandleExt}
use pam_ssh_agent.Expansions.{expand_vars}
use pam_ssh_agent.Args.{
  Args, Locals, set_parameter, expand_and_set, assign, interpret, step, parse_loop, initial, parse,
  note_per_user, strict_flag, is_absolute, validate_trust_source_argument, check_strict,
}

-- The literals differ.
debug_shortcut : bytes_eq (codes "debug") (codes "sshd_shortcut") ≡ false
unfolding bytes_eq
debug_shortcut = refl

strict_shortcut : bytes_eq (codes "strict") (codes "sshd_shortcut") ≡ false
unfolding bytes_eq
strict_shortcut = refl

strict_debug : bytes_eq (codes "strict") (codes "debug") ≡ false
unfolding bytes_eq
strict_debug = refl

shortcut_debug : bytes_eq (codes "sshd_shortcut") (codes "debug") ≡ false
unfolding bytes_eq
shortcut_debug = refl

set_parameter-fixed :
    (key value : Bytes) (a : Args) {a' : Args}
    → set_parameter key value a ≡ ok a'
    → (a'.debug ≡ a.debug) × (a'.strict ≡ a.strict) × (a'.sshd_shortcut ≡ a.sshd_shortcut)
unfolding set_parameter
set_parameter-fixed key value a h = ground arith

module _ (env : Environment) (handle : PamHandleExt) where
  -- What a successful `key=value` argument went through.
  pub expand_and_set-ok :
      (argument : Bytes) (a : Args) {a' : Args}
      → expand_and_set env handle argument a ≡ ok a'
      → (expanded key value : Bytes) × (expand_vars argument env handle ≡ ok expanded)
        × (split_once expanded b'=' ≡ some (key, value))
        × (set_parameter key value a ≡ ok a')
  unfolding expand_and_set
  expand_and_set-ok argument a h =
      let (expanded, e, k) = >>=-eq-ok (expand_vars argument env handle) _ h in
      elim (Option-cases (split_once expanded b'=')) [
        | inl none_found ↦ absurd (ground arith)
        | inr ((key, value), cut) ↦ (expanded, key, value, e, cut, ground arith)
      ]

  pub assign-ok :
      (argument : Bytes) (l : Locals) {l' : Locals}
      → assign env handle argument l ≡ ok l'
      → (a : Args) × (expand_and_set env handle argument l.args ≡ ok a)
        × (l.strict ≡ true → validate_trust_source_argument argument ≡ ok tt)
        × (l'.args ≡ a)
        × (l'.file_is_per_user ≡ note_per_user argument l.file_is_per_user)
  unfolding assign
  assign-ok argument l h =
      let (u, v, k) =
        >>=-eq-ok (if l.strict then validate_trust_source_argument argument else ok tt) _ h in
      let (a, e, m) = >>=-eq-ok (expand_and_set env handle argument l.args) _ k in
      (
        a,
        e,
        check_if l.strict (validate_trust_source_argument argument) v,
        ground arith,
        ground arith,
      )

  assign-fixed :
      (argument : Bytes) (l : Locals) {l' : Locals}
      → assign env handle argument l ≡ ok l'
      → (l'.debug ≡ l.debug) × (l'.strict ≡ l.strict) × (l'.sshd_shortcut ≡ l.sshd_shortcut)
  assign-fixed argument l {l'} h =
      let (a, e, _, same, _) = assign-ok argument l h in
      let (_, key, value, _, _, set) = expand_and_set-ok argument l.args e in
      ground (arith, set_parameter-fixed key value l.args set)

  -- What one round does to the flags.
  pub interpret-flags :
      (argument : Bytes) (l : Locals) {l' : Locals}
      → interpret env handle argument l ≡ ok l'
      → (l'.debug ≡ (bytes_eq argument (codes "debug") || l.debug))
        × (l'.strict ≡ l.strict)
        × (l'.sshd_shortcut ≡ (bytes_eq argument (codes "sshd_shortcut") || l.sshd_shortcut))
  unfolding interpret
  interpret-flags argument l {l'} h = ground (
    arith,
    assign-fixed argument l {l' = l'},
    bytes_eq_other argument (codes "debug") (codes "sshd_shortcut"),
    bytes_eq_other argument (codes "strict") (codes "sshd_shortcut"),
    bytes_eq_other argument (codes "strict") (codes "debug"),
    bytes_eq_other argument (codes "sshd_shortcut") (codes "debug"),
    debug_shortcut,
    strict_shortcut,
    strict_debug,
    shortcut_debug,
  )

  pub step-ok :
      (bytes : Bytes) (l : Locals) {l' : Locals}
      → step env handle bytes l ≡ ok l'
      → interpret env handle bytes l ≡ ok l'
  unfolding step
  step-ok bytes l h =
      let (argument, e, k) = >>=-eq-ok (from_utf8 bytes) _ h in rw (from_utf8-eq-ok bytes e) k

  -- A property of the locals that every round keeps holds behind the loop.
  pub parse_loop_inv :
      (P : Locals → Type 0)
      → ((argument : Bytes) (l l' : Locals) → P l → interpret env handle argument l ≡ ok l' → P l')
      → (args : List Bytes) (l : Locals) {l' : Locals} → P l
      → parse_loop env handle args l ≡ ok l'
      → P l'
  unfolding parse_loop
  parse_loop_inv P keep [] l p h = subst P (ok_injective _ _ h) p
  parse_loop_inv P keep (argument ∷ rest) l p h =
      let (m, e, k) = >>=-eq-ok (step env handle argument l) _ h in
      parse_loop_inv P keep rest m (keep argument l m p (step-ok argument l e)) k

  pub parse_loop-flags :
      (args : List Bytes) (l : Locals) {l' : Locals}
      → parse_loop env handle args l ≡ ok l'
      → (l'.debug ≡ (any (λ arg. bytes_eq arg (codes "debug")) args || l.debug))
        × (l'.strict ≡ l.strict)
        × (l'.sshd_shortcut
            ≡ (any (λ arg. bytes_eq arg (codes "sshd_shortcut")) args || l.sshd_shortcut))
  unfolding parse_loop
  parse_loop-flags [] l h = ground arith
  parse_loop-flags (argument ∷ rest) l {l'} h =
      let (m, e, k) = >>=-eq-ok (step env handle argument l) _ h in
      ground (
        arith,
        parse_loop-flags rest m {l' = l'} k,
        interpret-flags argument l {l' = m} (step-ok argument l e),
      )

-- What the tests behind the loop have let through.
check_strict-per_user :
    (l : Locals) {a : Args}
    → check_strict l ≡ ok a
    → (l.args ≡ a) × (l.strict ≡ true → l.file_is_per_user ≡ true)
unfolding check_strict
check_strict-per_user l h = (ground arith, λ s. ground arith)

check_strict-absolute :
    (l : Locals) {a : Args} (command : Bytes)
    → check_strict l ≡ ok a
    → l.strict ≡ true
    → l.authorized_keys_command ≡ some command
    → is_absolute command ≡ true
unfolding check_strict
check_strict-absolute l command h s c = ground arith

-- A successful parse, taken apart: the locals behind the loop, which the tests have passed.
pub record Parsed (args : List Bytes) (env : Environment) (handle : PamHandleExt) (a : Args)
    : Type 0 where
  pub locals : Locals
  pub looped : parse_loop env handle args (initial (strict_flag args)) ≡ ok locals
  pub same : locals.args ≡ a
  pub per_user : locals.strict ≡ true → locals.file_is_per_user ≡ true
  pub absolute :
      locals.strict ≡ true
      → (command : Bytes) → locals.authorized_keys_command ≡ some command
      → is_absolute command ≡ true

pub parse-ok :
    (args : List Bytes) (env : Environment) (handle : PamHandleExt) {a : Args}
    → parse args env handle ≡ ok a
    → Parsed args env handle a
unfolding parse
parse-ok args env handle {a} h =
    let (l, e, k) = >>=-eq-ok (parse_loop env handle args (initial (strict_flag args))) _ h in
    record {
      locals = l;
      looped = e;
      same = (check_strict-per_user l k).0;
      per_user = (check_strict-per_user l k).1;
      absolute = λ s command c. check_strict-absolute l command k s c;
    }
