-- ===== src/Pam/Decision.antt =====
-- What a call of `sm_authenticate` that returns PAM_SUCCESS has established.
pub mod Strict
pub mod Helper
pub mod Stream
use pam_ssh_agent.Common.{
  Bytes, List, Bool, true, false, if◌then◌else◌, Result, ok, err, ◌≡◌, ◌⊎◌, ◌↔◌, inl, inr, refl,
  sym, ap, ◌∙◌, subst, arith, >>=-eq-ok, ok_injective, check_if,
}
use pam_ssh_agent.Environment.{PamHandleExt}
use pam_ssh_agent.Environment.Unix.{unix_environment}
use pam_ssh_agent.Args.{Args, parse}
use pam_ssh_agent.SshKeys.{SshKeys, Identity}
use pam_ssh_agent.Filter.Identities.{IdentityFilter}
use pam_ssh_agent.Auth.{Agent, Random, authenticate}
use pam_ssh_agent.Auth.Session.Sound.{Accepted, authenticate_sound}
use pam_ssh_agent.Auth.Session.Complete.{authenticate_iff}
use pam_ssh_agent.Logging.{init_logging}
use pam_ssh_agent.Pam.{
  pam_success, PamContext, new_context, context_handle, validate_strict_users, Process, State,
  build_filter, conclude, open_agent, ask_agent, shortcut, prepare, answer_prepared,
  do_authenticate, with_debug, accept_arguments, run_accepted, run_started, run_in, run,
  result_code, sm_authenticate,
}
use pam_ssh_agent.Pam.Answer.{IsProven, do_authenticate-IsProven, IsProven-do_authenticate}

module _ (C : SshKeys) (A : Agent C) (R : Random C) (p : Process C A R) where
  open C use {KeyData, Certificate}

  -- What a call that has started its logger establishes: the arguments as they were parsed, the
  -- accounts that strict mode checks, the filter, and the proof that the user has an accepted key.
  pub record IsSettled (arguments : List Bytes) (context : PamContext) (source : R.Source)
      : Type 0 where
    pub args : Args
    pub parsed : parse arguments (unix_environment p.host) (context_handle context) ≡ ok args
    pub checked : (if args.strict then validate_strict_users p.host args context else ok tt) ≡ ok tt
    pub f : IdentityFilter KeyData
    pub built : build_filter C A R p args context ≡ ok f
    pub proven : IsProven C A R p args context f source

  -- What stands behind PAM_SUCCESS: the user and the service that PAM names, the logger, and the rest
  -- of the call.
  pub record IsGranted (arguments : List Bytes) (handle : PamHandleExt) (s : State C A R)
      : Type 0 where
    pub context : PamContext
    pub called : new_context handle ≡ ok context
    pub logged : (init_logging (p.open_log context.service) s.log).0 ≡ ok tt
    pub settled : IsSettled arguments context s.source
    pub open settled use *

  accept_arguments-ok :
      (arguments : List Bytes) (context : PamContext) (args : Args)
      → accept_arguments C A R p arguments context ≡ ok args
      → (parse arguments (unix_environment p.host) (context_handle context) ≡ ok args)
        × ((if args.strict then validate_strict_users p.host args context else ok tt) ≡ ok tt)
  unfolding accept_arguments
  accept_arguments-ok arguments context args h =
      let (args', parsed, h') =
        >>=-eq-ok (parse arguments (unix_environment p.host) (context_handle context)) _ h in
      let (_, checked, h'') =
        >>=-eq-ok (if args'.strict then validate_strict_users p.host args' context else ok tt) _
          h' in
      let same : args' ≡ args = ok_injective _ _ h'' in
      (
        parsed ∙ ap ok same,
        subst (λ a. (if a.strict then validate_strict_users p.host a context else ok tt) ≡ ok tt)
            same checked,
      )

  accept_arguments_ok :
      (arguments : List Bytes) (context : PamContext) (args : Args)
      → parse arguments (unix_environment p.host) (context_handle context) ≡ ok args
      → (if args.strict then validate_strict_users p.host args context else ok tt) ≡ ok tt
      → accept_arguments C A R p arguments context ≡ ok args
  unfolding accept_arguments
  accept_arguments_ok arguments context args parsed checked = rw (parsed, checked) refl

  run_accepted-IsSettled :
      (arguments : List Bytes) (context : PamContext) (accepted : Result Args) (s : State C A R)
      → accept_arguments C A R p arguments context ≡ accepted
      → (run_accepted C A R p context accepted s).0 ≡ ok tt
      → IsSettled arguments context s.source
  unfolding run_accepted with_debug
  run_accepted-IsSettled arguments context (err e) s same h = absurd (cc)
  run_accepted-IsSettled arguments context (ok args) s same h =
      let (parsed, checked) = accept_arguments-ok arguments context args same in
      let (f, built, proven) = do_authenticate-IsProven C A R p args context s.source h in
      record {
        args = args;
        parsed = parsed;
        checked = checked;
        f = f;
        built = built;
        proven = proven;
      }

  IsSettled-run_accepted :
      (arguments : List Bytes) (context : PamContext) (s : State C A R)
      → IsSettled arguments context s.source
      → (run_accepted C A R p context (accept_arguments C A R p arguments context) s).0 ≡ ok tt
  unfolding run_accepted with_debug
  IsSettled-run_accepted arguments context s g =
      let accepted = accept_arguments_ok arguments context g.args g.parsed g.checked in
      rw accepted (IsProven-do_authenticate C A R p g.args context g.f s.source g.built g.proven)

  run_started-IsSettled :
      (arguments : List Bytes) (context : PamContext) (started : Result (Unit {0}))
      (s : State C A R)
      → (run_started C A R p arguments context started s).0 ≡ ok tt
      → (started ≡ ok tt) × IsSettled arguments context s.source
  unfolding run_started
  run_started-IsSettled arguments context (err e) s h = absurd (cc)
  run_started-IsSettled arguments context (ok tt) s h = (
    refl,
    run_accepted-IsSettled arguments context (accept_arguments C A R p arguments context) s refl h,
  )

  run_in-IsGranted :
      (arguments : List Bytes) (handle : PamHandleExt) (result : Result PamContext)
      (s : State C A R)
      → new_context handle ≡ result
      → (run_in C A R p arguments result s).0 ≡ ok tt
      → IsGranted arguments handle s
  unfolding run_in
  run_in-IsGranted arguments handle (err e) s same h = absurd (cc)
  run_in-IsGranted arguments handle (ok context) s same h =
      let begun = init_logging (p.open_log context.service) s.log in
      let (logged, settled) =
        run_started-IsSettled arguments context begun.0 (record s { log = begun.1 }) h in
      record { context = context; called = same; logged = logged; settled = settled }

  succeeded : (r : Result (Unit {0})) → result_code C A R p r ≡ pam_success → r ≡ ok tt
  unfolding result_code
  succeeded (ok _) h = refl
  succeeded (err e) h = absurd (cc)

  pub sm_authenticate-IsGranted :
      (arguments : List Bytes) (handle : PamHandleExt) (s : State C A R)
      → (sm_authenticate C A R p arguments handle s).0 ≡ pam_success
      → IsGranted arguments handle s
  unfolding sm_authenticate run
  sm_authenticate-IsGranted arguments handle s h =
      run_in-IsGranted arguments handle (new_context handle) s refl
        (succeeded (run C A R p arguments handle s).0 h)

  IsGranted-run :
      (arguments : List Bytes) (handle : PamHandleExt) (s : State C A R)
      → IsGranted arguments handle s
      → (run C A R p arguments handle s).0 ≡ ok tt
  unfolding run run_in run_started
  IsGranted-run arguments handle s g =
      let begun = init_logging (p.open_log g.context.service) s.log in
      let next : State C A R = record s { log = begun.1 } in
      rw (g.called, g.logged) (IsSettled-run_accepted arguments g.context next g.settled)

  -- `sm_authenticate` returns PAM_SUCCESS exactly if PAM has named the user and the service, the
  -- logger has started, the arguments have been parsed, in strict mode the accounts have been
  -- checked, the filter has been built, and either the shortcut for sshd is enabled and applies, or
  -- it does not apply, without an error, and the agent has been reached and an identity that it
  -- listed is accepted for the user.
  pub sm_authenticate_iff :
      (arguments : List Bytes) (handle : PamHandleExt) (s : State C A R)
      → ((sm_authenticate C A R p arguments handle s).0 ≡ pam_success)
        ↔ IsGranted arguments handle s
  unfolding sm_authenticate result_code
  sm_authenticate_iff arguments handle s = (
    λ h. sm_authenticate-IsGranted arguments handle s h,
    λ g. rw (IsGranted-run arguments handle s g) refl,
  )
