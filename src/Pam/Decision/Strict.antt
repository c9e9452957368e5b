-- ===== src/Pam/Decision/Strict.antt =====
-- What strict mode adds to a call that returns PAM_SUCCESS.
use pam_ssh_agent.Common.{
  refl, ℕ, Bytes, List, true, false, Option, none, some, ◌==◌, if◌then◌else◌, ok, ◌≡◌, ◌≢◌, ◌⊎◌,
  inl, inr, ◌∙◌, arith, >>=-eq-ok, bail, root_helper, check_if, subst,
}
use pam_ssh_agent.Environment.{PamHandleExt}
use pam_ssh_agent.Environment.Unix.{Host, unix_environment}
use pam_ssh_agent.Args.{Args, strict_flag}
use pam_ssh_agent.Args.Outcome.{IsBounded, parse-flags, parse-IsBounded}
use pam_ssh_agent.SshKeys.{SshKeys, Identity, public_key, certificate}
use pam_ssh_agent.Filter.Policy.{PolicyMode, Authorized}
use pam_ssh_agent.Filter.Identities.{IdentityFilter, filter, new_strict, new_with_mode}
use pam_ssh_agent.Filter.Identities.Membership.{IsAuthorized}
use pam_ssh_agent.Filter.Identities.Strict.{
  IsStrictFile, StrictAuthorities, StrictCommand, new_with_mode-strict,
}
use pam_ssh_agent.Auth.{SystemTime, Agent, Random}
use pam_ssh_agent.Auth.Eligible.{IsEligible}
use pam_ssh_agent.Pam.{
  pam_success, PamContext, context_handle, validate_strict_user, validate_strict_users,
  check_helper, Process, State, outside, build_filter, sm_authenticate,
}
use pam_ssh_agent.Pam.Users.{IsLocalUser, validate_strict_user-IsLocalUser}
use pam_ssh_agent.Pam.Answer.{IsProven}
use pam_ssh_agent.Pam.Decision.{IsGranted, sm_authenticate-IsGranted}

-- The account that runs the helper is checked by name and is not root.
abbrev pub IsHelperUser : Host → Option Bytes → Bytes → Type 0
IsHelperUser host command_user calling_user =
    (uid : ℕ) × (validate_strict_user host
        (elim command_user [ none ↦ calling_user | some user ↦ user ])
      ≡ ok uid)
    × (uid ≢ 0)

abbrev pub HasHelperUser : Host → Option Bytes → Option Bytes → Bytes → Type 0
HasHelperUser host none command_user calling_user = Unit
HasHelperUser host (some _) command_user calling_user = IsHelperUser host command_user calling_user

not_root : (n : ℕ) → (if n == 0 then bail {T = Unit {0}} root_helper else ok tt) ≡ ok tt → n ≢ 0
not_root n h = ground arith

users_checked :
    (host : Host) (args : Args) (context : PamContext)
    → validate_strict_users host args context ≡ ok tt
    → ((uid : ℕ) × IsLocalUser host context.calling_user uid)
      × HasHelperUser host args.authorized_keys_command args.authorized_keys_command_user
          context.calling_user
unfolding validate_strict_users check_helper
users_checked host args context h =
    let (uid, known, k) = >>=-eq-ok (validate_strict_user host context.calling_user) _ h in
    (
      (uid, validate_strict_user-IsLocalUser host context.calling_user known),
      helper args.authorized_keys_command args.authorized_keys_command_user uid known k,
    )
  where
    helper :
        (command command_user : Option Bytes) (uid : ℕ)
        → validate_strict_user host context.calling_user ≡ ok uid
        → check_helper host command command_user uid ≡ ok tt
        → HasHelperUser host command command_user context.calling_user
    helper none command_user uid known h = tt
    helper (some _) none uid known h = (uid, known, not_root uid h)
    helper (some _) (some user) uid known h =
        let (other, e, k) = >>=-eq-ok (validate_strict_user host user) _ h in
        (other, e, not_root other k)

module _ (C : SshKeys) (A : Agent C) (R : Random C) (p : Process C A R) where
  open C use {KeyData, Certificate}

  eligible-filter :
      (f : IdentityFilter KeyData) (now : SystemTime) (user : Bytes)
      (identity : Identity KeyData Certificate)
      → IsEligible C f now user identity
      → filter C f identity ≡ true
  eligible-filter f now user (public_key k) h = h
  eligible-filter f now user (certificate cert) h = h.0

  -- The identity that has decided the call: the one that sshd left, or the one the agent proved.
  abbrev pub deciding_identity :
      {args : Args} {context : PamContext} {f : IdentityFilter KeyData} {source : R.Source}
      → IsProven C A R p args context f source
      → Identity KeyData Certificate
  deciding_identity (inl (_, s)) = public_key s.k
  deciding_identity (inr (_, a)) = a.accepted.identity

  decider-trusted :
      (args : Args) (context : PamContext) (f : IdentityFilter KeyData) (source : R.Source)
      (proven : IsProven C A R p args context f source)
      → filter C f (deciding_identity proven) ≡ true
  decider-trusted args context f source (inl (_, s)) = s.accepted
  decider-trusted args context f source (inr (_, a)) =
      eligible-filter f p.now context.calling_user a.accepted.identity a.accepted.eligible

  -- What strict mode guarantees of a success: the user is a local account with a plain name, a
  -- helper runs for a checked account that is not root, the agent had a deadline, and the identity
  -- that decided is authorized by policies that root controls.
  pub record IsStrictlyGranted (arguments : List Bytes) (handle : PamHandleExt) (s : State C A R)
      : Type 0 where
    pub granted : IsGranted C A R p arguments handle s
    pub uid : ℕ
    pub account : IsLocalUser p.host granted.context.calling_user uid
    pub helper :
        HasHelperUser p.host granted.args.authorized_keys_command
          granted.args.authorized_keys_command_user granted.context.calling_user
    pub deadline : IsBounded true granted.args.agent_timeout
    -- the key that sshd has left, or the identity whose possession the agent has proven
    pub identity : Identity KeyData Certificate
    pub decided : identity ≡ deciding_identity granted.proven
    pub trusted : filter C granted.f identity ≡ true
    pub keys : List (Authorized KeyData)
    pub authorities : List (Authorized KeyData)
    pub commanded : List (Authorized KeyData)
    pub keys_file : IsStrictFile C p.fs granted.args.file false keys
    pub authorities_file : StrictAuthorities C p.fs granted.args.ca_keys_file authorities
    pub output :
        StrictCommand C
          (outside C A R p)
          granted.args.authorized_keys_command
          granted.args.authorized_keys_command_user
          granted.context.calling_user
          commanded
    pub authorized :
        IsAuthorized C keys identity
        ⊎ IsAuthorized C authorities identity
        ⊎ IsAuthorized C commanded identity

  built_strict :
      (args : Args) (context : PamContext) (f : IdentityFilter KeyData)
      → args.strict ≡ true
      → build_filter C A R p args context ≡ ok f
      → new_with_mode C
          (outside C A R p)
          args.file
          args.ca_keys_file
          args.authorized_keys_command
          args.authorized_keys_command_user
          context.calling_user
          PolicyMode.strict
        ≡ ok f
  unfolding build_filter new_strict
  built_strict args context f strict h = ground arith

  -- If `strict` is among the arguments and `sm_authenticate` returns PAM_SUCCESS, then the calling
  -- user is a local account with a plain name, a helper that is configured runs for a checked
  -- account that is not root, the agent has a timeout of 1 to 300 seconds, and the identity that has
  -- decided the call (the key that sshd has left, where the shortcut applies, or the one whose
  -- possession the agent has proven) is trusted by the filter and authorized, in its role, by the
  -- keys file, the authorities file or the helper's output, each of them read by the strict rules.
  pub sm_authenticate-strict :
      (arguments : List Bytes) (handle : PamHandleExt) (s : State C A R)
      → strict_flag arguments ≡ true
      → (sm_authenticate C A R p arguments handle s).0 ≡ pam_success
      → IsStrictlyGranted arguments handle s
  sm_authenticate-strict arguments handle s flag h =
      let g = sm_authenticate-IsGranted C A R p arguments handle s h in
      let env = unix_environment p.host in
      let strict : g.args.strict ≡ true =
        (parse-flags arguments env (context_handle g.context) g.parsed).1 ∙ flag in
      let ((uid, account), helper) =
        users_checked p.host g.args g.context (
          check_if g.args.strict (validate_strict_users p.host g.args g.context) g.checked
            strict) in
      let identity = deciding_identity g.proven in
      let trusted = decider-trusted g.args g.context g.f s.source g.proven in
      let (keys, authorities, commanded, keys_file, authorities_file, output, authorized) =
        new_with_mode-strict C (outside C A R p) g.args.file g.args.ca_keys_file
          g.args.authorized_keys_command g.args.authorized_keys_command_user g.context.calling_user
          (built_strict g.args g.context g.f strict g.built) identity trusted in
      record {
        granted = g;
        uid = uid;
        account = account;
        helper = helper;
        deadline =
            subst (λ b. IsBounded b g.args.agent_timeout) strict
              (parse-IsBounded arguments env (context_handle g.context) g.parsed);
        identity = identity;
        decided = refl;
        trusted = trusted;
        keys = keys;
        authorities = authorities;
        commanded = commanded;
        keys_file = keys_file;
        authorities_file = authorities_file;
        output = output;
        authorized = authorized;
      }
