-- ===== src/Pam/Logs.antt =====
-- What a call leaves in the logger.
use pam_ssh_agent.Common.{Bytes, List, Result, ok, err, ◌≡◌, refl}
use pam_ssh_agent.Environment.{PamHandleExt}
use pam_ssh_agent.Args.{Args}
use pam_ssh_agent.SshKeys.{SshKeys}
use pam_ssh_agent.Auth.{Agent, Random}
use pam_ssh_agent.Logging.{LogState, init_logging}
use pam_ssh_agent.Pam.{
  PamContext, new_context, Process, State, with_debug, accept_arguments, run_accepted, run_started,
  run_in, run, sm_authenticate,
}

module _ (C : SshKeys) (A : Agent C) (R : Random C) (p : Process C A R) where
  -- The logger behind a call that PAM has given a context, or none.
  abbrev pub started_log : Result PamContext → LogState → LogState
  started_log (err e) log = log
  started_log (ok context) log = (init_logging (p.open_log context.service) log).1

  run_accepted_log :
      (context : PamContext) (accepted : Result Args) (s : State C A R)
      → (run_accepted C A R p context accepted s).1.log ≡ s.log
  unfolding run_accepted with_debug
  run_accepted_log context (err e) s = refl
  run_accepted_log context (ok args) s = refl

  run_started_log :
      (arguments : List Bytes) (context : PamContext) (started : Result (Unit {0}))
      (s : State C A R)
      → (run_started C A R p arguments context started s).1.log ≡ s.log
  unfolding run_started
  run_started_log arguments context (err e) s = refl
  run_started_log arguments context (ok _) s =
      run_accepted_log context (accept_arguments C A R p arguments context) s

  run_in_log :
      (arguments : List Bytes) (context : Result PamContext) (s : State C A R)
      → (run_in C A R p arguments context s).1.log ≡ started_log context s.log
  unfolding run_in
  run_in_log arguments (err e) s = refl
  run_in_log arguments (ok context) s =
      let (started, log') = init_logging (p.open_log context.service) s.log in
      run_started_log arguments context started (record s { log = log' })

  -- Whatever a call returns, and whether `debug` was among its arguments or not, it leaves the logger
  -- as its start has made it: the debug flag of the call does not outlive it.
  pub sm_authenticate_log :
      (arguments : List Bytes) (handle : PamHandleExt) (s : State C A R)
      → (sm_authenticate C A R p arguments handle s).1.log ≡ started_log (new_context handle) s.log
  unfolding sm_authenticate run
  sm_authenticate_log arguments handle s = run_in_log arguments (new_context handle) s
