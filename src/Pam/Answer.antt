-- ===== src/Pam/Answer.antt =====
-- `do_authenticate`: exactly when the user has proven an accepted key.
use pam_ssh_agent.Common.{
  List, Bool, true, false, Result, ok, err, ◌≡◌, ◌⊎◌, inl, inr, refl, sym, ap, ◌∙◌, arith,
  >>=-eq-ok, ok_injective,
}
use pam_ssh_agent.Environment.Unix.{unix_environment}
use pam_ssh_agent.Args.{Args}
use pam_ssh_agent.SshKeys.{SshKeys, Identity}
use pam_ssh_agent.Filter.Identities.{IdentityFilter}
use pam_ssh_agent.Auth.{Agent, Random, authenticate}
use pam_ssh_agent.Auth.Session.Sound.{Accepted, authenticate_sound}
use pam_ssh_agent.Auth.Session.Complete.{authenticate_iff}
use pam_ssh_agent.Pam.{
  PamContext, Process, build_filter, conclude, open_agent, ask_agent, shortcut, prepare,
  answer_prepared, do_authenticate,
}
use pam_ssh_agent.Pam.Shortcut.{IsShortcut, check_sshd_special_case_iff}

module _ (C : SshKeys) (A : Agent C) (R : Random C) (p : Process C A R) where
  open C use {KeyData, Certificate}

  -- The agent at the configured socket has offered an identity that passes for the user.
  pub record IsAnswered (args : Args) (context : PamContext) (f : IdentityFilter KeyData)
      (source : R.Source) : Type 0 where
    pub agent : A.State
    pub connected : open_agent C A R p args ≡ ok agent
    pub identities : List (Identity KeyData Certificate)
    pub listed : (A.list_identities agent).0 ≡ ok identities
    pub accepted :
        Accepted C A R f p.now context.calling_user identities ((A.list_identities agent).1, source)

  conclude-true : (answer : Result Bool) → conclude C A R p answer ≡ ok tt → answer ≡ ok true
  unfolding conclude
  conclude-true (ok true) h = refl
  conclude-true (ok false) h = absurd (cc)
  conclude-true (err e) h = absurd (cc)

  ask_agent-IsAnswered :
      (args : Args) (context : PamContext) (f : IdentityFilter KeyData) (source : R.Source)
      (opened : Result A.State)
      → open_agent C A R p args ≡ opened
      → (ask_agent C A R p context f opened source).0 ≡ ok tt
      → IsAnswered args context f source
  unfolding ask_agent
  ask_agent-IsAnswered args context f source (err e) same h = absurd (cc)
  ask_agent-IsAnswered args context f source (ok agent) same h =
      let (identities, listed, accepted) =
        authenticate_sound C A R f p.now context.calling_user (agent, source)
          (conclude-true (authenticate C A R f p.now context.calling_user (agent, source)).0 h) in
      record {
        agent = agent;
        connected = same;
        identities = identities;
        listed = listed;
        accepted = accepted;
      }

  IsAnswered-ask_agent :
      (args : Args) (context : PamContext) (f : IdentityFilter KeyData) (source : R.Source)
      → IsAnswered args context f source
      → (ask_agent C A R p context f (open_agent C A R p args) source).0 ≡ ok tt
  unfolding ask_agent conclude
  IsAnswered-ask_agent args context f source a =
      let decided =
        (authenticate_iff C A R f p.now context.calling_user (a.agent, source)).1
          (a.identities, a.listed, a.accepted) in
      rw (a.connected, decided) refl

  -- How a prepared call can succeed: by the shortcut, or behind it.
  abbrev pub IsProven : Args → PamContext → IdentityFilter KeyData → R.Source → Type 0
  IsProven args context f source =
      ((args.sshd_shortcut ≡ true) × IsShortcut C f (unix_environment p.host) context.service)
      ⊎ ((shortcut C A R p args context f ≡ ok false) × IsAnswered args context f source)

  shortcut_taken :
      (args : Args) (context : PamContext) (f : IdentityFilter KeyData)
      → (args.sshd_shortcut ≡ true) × IsShortcut C f (unix_environment p.host) context.service
      → shortcut C A R p args context f ≡ ok true
  unfolding shortcut
  shortcut_taken args context f (enabled, s) =
      rw enabled ((check_sshd_special_case_iff C f (unix_environment p.host) context.service).1 s)

  shortcut-taken :
      (args : Args) (context : PamContext) (f : IdentityFilter KeyData)
      → shortcut C A R p args context f ≡ ok true
      → (args.sshd_shortcut ≡ true) × IsShortcut C f (unix_environment p.host) context.service
  unfolding shortcut
  shortcut-taken args context f h =
      ground (arith, check_sshd_special_case_iff C f (unix_environment p.host) context.service)

  prepare-ok :
      (args : Args) (context : PamContext) (f : IdentityFilter KeyData) (taken : Bool)
      → prepare C A R p args context ≡ ok (f, taken)
      → (build_filter C A R p args context ≡ ok f) × (shortcut C A R p args context f ≡ ok taken)
  unfolding prepare
  prepare-ok args context f taken h =
      let (f', built, h') = >>=-eq-ok (build_filter C A R p args context) _ h in
      let (taken', answered, h'') = >>=-eq-ok (shortcut C A R p args context f') _ h' in
      let same : f' ≡ f = ap (λ q. q.0) (ok_injective _ _ h'') in
      (
        built ∙ ap ok same,
        ap (λ g. shortcut C A R p args context g) (sym same)
            ∙ answered
            ∙ ap (λ q. ok q.1) (ok_injective _ _ h''),
      )

  answer_prepared-IsProven :
      (args : Args) (context : PamContext) (source : R.Source)
      (prepared : Result (IdentityFilter KeyData × Bool))
      → prepare C A R p args context ≡ prepared
      → (answer_prepared C A R p args context prepared source).0 ≡ ok tt
      → (f : IdentityFilter KeyData) × (build_filter C A R p args context ≡ ok f)
        × IsProven args context f source
  unfolding answer_prepared
  answer_prepared-IsProven args context source (err e) same h = absurd (cc)
  answer_prepared-IsProven args context source (ok (f, true)) same h =
      let (built, answered) = prepare-ok args context f true same in
      (f, built, inl (shortcut-taken args context f answered))
  answer_prepared-IsProven args context source (ok (f, false)) same h =
      let (built, answered) = prepare-ok args context f false same in
      (
        f,
        built,
        inr (answered, ask_agent-IsAnswered args context f source (open_agent C A R p args) refl h),
      )

  pub do_authenticate-IsProven :
      (args : Args) (context : PamContext) (source : R.Source)
      → (do_authenticate C A R p args context source).0 ≡ ok tt
      → (f : IdentityFilter KeyData) × (build_filter C A R p args context ≡ ok f)
        × IsProven args context f source
  unfolding do_authenticate
  do_authenticate-IsProven args context source h =
      answer_prepared-IsProven args context source (prepare C A R p args context) refl h

  pub IsProven-do_authenticate :
      (args : Args) (context : PamContext) (f : IdentityFilter KeyData) (source : R.Source)
      → build_filter C A R p args context ≡ ok f
      → IsProven args context f source
      → (do_authenticate C A R p args context source).0 ≡ ok tt
  unfolding do_authenticate prepare answer_prepared
  IsProven-do_authenticate args context f source built (inl taken) =
      rw (built, shortcut_taken args context f taken) refl
  IsProven-do_authenticate args context f source built (inr (passed, a)) =
      rw (built, passed) (IsAnswered-ask_agent args context f source a)
