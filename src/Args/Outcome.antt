-- ===== src/Args/Outcome.antt =====
-- What a successful `Args::parse` returns.
use pam_ssh_agent.Common.{
  ℕ, Bytes, codes, bytes_eq, List, Bool, true, false, not, ◌||◌, Option, none, some, ok, ◌≡◌, subst,
  arith, any, ◌≤◌,
}
use pam_ssh_agent.Environment.{Environment, PamHandleExt}
use pam_ssh_agent.Args.{
  Args, Locals, set_parameter, parse_timeout, assign, interpret, initial, parse, strict_flag,
}
use pam_ssh_agent.Args.Loop.{
  expand_and_set-ok, assign-ok, parse_loop_inv, parse_loop-flags, parse-ok,
}

-- The three flags are set exactly by the arguments that name them, in any order; `strict` turns
-- the sshd shortcut off unless `sshd_shortcut` is given.
pub parse-flags :
    (args : List Bytes) (env : Environment) (handle : PamHandleExt) {a : Args}
    → parse args env handle ≡ ok a
    → (a.debug ≡ any (λ arg. bytes_eq arg (codes "debug")) args)
      × (a.strict ≡ strict_flag args)
      × (a.sshd_shortcut
          ≡ (any (λ arg. bytes_eq arg (codes "sshd_shortcut")) args || not (strict_flag args)))
parse-flags args env handle {a} h =
    let p = parse-ok args env handle h in
    ground (arith, parse_loop-flags env handle args (initial (strict_flag args)) p.looped, p.same)

-- A timeout lies between 1 and 300 seconds; strict mode always has one.
abbrev pub IsBounded : Bool → Option ℕ → Type 0
IsBounded strict (some seconds) = (1 ≤ seconds) × (seconds ≤ 300)
IsBounded false none = Unit
IsBounded true none = ⊥

set_parameter-IsBounded :
    (key value : Bytes) (a : Args) {a' : Args}
    → IsBounded a.strict a.agent_timeout
    → set_parameter key value a ≡ ok a'
    → IsBounded a'.strict a'.agent_timeout
unfolding set_parameter parse_timeout
set_parameter-IsBounded key value a b h = ground arith

abbrev Timed : Locals → Type 0
Timed l = IsBounded l.strict l.agent_timeout

module _ (env : Environment) (handle : PamHandleExt) where
  assign-Timed :
      (argument : Bytes) (l l' : Locals) → Timed l → assign env handle argument l ≡ ok l' → Timed l'
  assign-Timed argument l l' b h =
      let (a, e, _, same, _) = assign-ok env handle argument l h in
      let (_, key, value, _, _, set) = expand_and_set-ok env handle argument l.args e in
      rw same (set_parameter-IsBounded key value l.args b set)

  interpret-Timed :
      (argument : Bytes) (l l' : Locals)
      → Timed l
      → interpret env handle argument l ≡ ok l'
      → Timed l'
  unfolding interpret
  interpret-Timed argument l l' b h = ground (arith, assign-Timed argument l l')

initial-Timed : (strict : Bool) → Timed (initial strict)
initial-Timed true = omega arith
initial-Timed false = tt

-- Whatever the arguments are, an accepted timeout is between 1 and 300 seconds, and strict mode
-- always has a timeout.
pub parse-IsBounded :
    (args : List Bytes) (env : Environment) (handle : PamHandleExt) {a : Args}
    → parse args env handle ≡ ok a
    → IsBounded a.strict a.agent_timeout
parse-IsBounded args env handle h =
    let p = parse-ok args env handle h in
    subst (λ a. IsBounded a.strict a.agent_timeout) p.same
      (parse_loop_inv env handle Timed (interpret-Timed env handle) args _
        (initial-Timed (strict_flag args)) p.looped)
