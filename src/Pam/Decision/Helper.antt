-- ===== src/Pam/Decision/Helper.antt =====
-- The helper behind a strict success, with src/cmd.rs for the running of it.
use pam_ssh_agent.Common.{
  ℕ, Bytes, List, [], ◌∷◌, Bool, true, false, Option, none, some, Result, ok, ok_or, unknown_user,
  ◌≡◌, ◌≢◌, ap, sym, ◌∙◌, subst, >>=-eq-ok, ok_injective, arith,
}
use pam_ssh_agent.Environment.{PamHandleExt}
use pam_ssh_agent.Environment.Unix.{Host, get_uid}
use pam_ssh_agent.Args.{strict_flag}
use pam_ssh_agent.SshKeys.{SshKeys}
use pam_ssh_agent.Filter.Paths.{FileSystem}
use pam_ssh_agent.Filter.Paths.Trusted.{IsTrustedPath}
use pam_ssh_agent.Filter.Policy.{Authorized}
use pam_ssh_agent.Filter.Policy.Strict.{AllAdmitted}
use pam_ssh_agent.Filter.Identities.{max_duration}
use pam_ssh_agent.Filter.Identities.Strict.{helper_user, IsStrictOutput, StrictCommand}
use pam_ssh_agent.Cmd.Run.{System, Outcome, run_inner}
use pam_ssh_agent.Cmd.Run.Success.{IsHelperRun, run_inner-IsHelperRun}
use pam_ssh_agent.Auth.{Agent, Random}
use pam_ssh_agent.Pam.{pam_success, Process, State, validate_strict_user, outside, sm_authenticate}
use pam_ssh_agent.Pam.Users.{IsLocalUser, validate_strict_user-IsLocalUser}
use pam_ssh_agent.Pam.Decision.Strict.{HasHelperUser, IsStrictlyGranted, sm_authenticate-strict}

-- Commands are run by `run` and `run_without_descendants` on a system: what has a result there is
-- the result of `run_inner`.
abbrev pub RunsOn : (Bool → List Bytes → ℕ → ℕ → Result Bytes) → System → Type 0
RunsOn run_command s =
    (prevent_descendants : Bool) (command : List Bytes) (timeout uid : ℕ) (text : Bytes)
    → run_command prevent_descendants command timeout uid ≡ ok text
    → (o : Outcome) × (run_inner s command timeout uid none prevent_descendants ≡ some o)
      × (o.result ≡ ok text)

module _ (C : SshKeys) where
  open C use {KeyData}

  -- A helper that ran well: an executable that root controls, for the calling user, as an account
  -- that is local and not root, with keys in its output that strict mode takes.
  pub record IsUnprivilegedRun (s : System) (host : Host) (fs : FileSystem)
      (command account calling_user : Bytes) (keys : List (Authorized KeyData)) : Type 0 where
    pub uid : ℕ
    pub local : IsLocalUser host account uid
    pub unprivileged : uid ≢ 0
    pub canonical : Bytes
    pub trusted : IsTrustedPath fs command 0 canonical
    pub text : Bytes
    pub ran : IsHelperRun s (canonical ∷ calling_user ∷ []) max_duration uid none true text
    pub admitted : AllAdmitted false (C.authorized_keys text) keys

  -- Without a helper there are no keys of one.
  abbrev pub HelperRan :
      System
      → Host
      → FileSystem
      → Option Bytes
      → Option Bytes
      → Bytes
      → List (Authorized KeyData)
      → Type 0
  HelperRan s host fs none command_user calling_user keys = keys ≡ []
  HelperRan s host fs (some command) command_user calling_user keys =
      IsUnprivilegedRun s host fs command (helper_user C command_user calling_user) calling_user
        keys

  same_account :
      (host : Host) (name : Bytes) (uid other : ℕ)
      → get_uid host name ≡ ok uid
      → IsLocalUser host name other
      → other ≡ uid
  unfolding get_uid
  same_account host name uid other h l =
      let (user, found, k) = >>=-eq-ok (ok_or (host.get_user_by_name name) unknown_user) _ h in
      let same : user ≡ l.user = ground (arith, l.known) in
      sym l.same_uid ∙ ap (λ u. u.uid) (sym same) ∙ ok_injective _ _ k

  module _ (A : Agent C) (R : Random C) (p : Process C A R) (s : System)
      (runs : RunsOn p.run_command s) where
    unprivileged_run :
        (command account calling_user : Bytes) (keys : List (Authorized KeyData)) {uid checked : ℕ}
        → validate_strict_user p.host account ≡ ok checked
        → checked ≢ 0
        → get_uid p.host account ≡ ok uid
        → IsStrictOutput C (outside C A R p) command uid calling_user keys
        → IsUnprivilegedRun s p.host p.fs command account calling_user keys
    unprivileged_run command account calling_user keys {uid} {checked} known other_than_root e o =
        let local = validate_strict_user-IsLocalUser p.host account known in
        let same : checked ≡ uid = same_account p.host account uid checked e local in
        let (outcome, ended, good) =
          runs true (o.canonical ∷ calling_user ∷ []) max_duration uid o.output o.ran in
        record {
          uid = uid;
          local = subst (IsLocalUser p.host account) same local;
          unprivileged = subst (λ n. n ≢ 0) same other_than_root;
          canonical = o.canonical;
          trusted = o.trusted;
          text = o.output;
          ran =
              run_inner-IsHelperRun s (o.canonical ∷ calling_user ∷ []) max_duration uid none true
                ended good;
          admitted = o.admitted;
        }

    helper_ran :
        (command command_user : Option Bytes) (calling_user : Bytes)
        (keys : List (Authorized KeyData))
        → HasHelperUser p.host command command_user calling_user
        → StrictCommand C (outside C A R p) command command_user calling_user keys
        → HelperRan s p.host p.fs command command_user calling_user keys
    helper_ran none command_user calling_user keys account output = output
    helper_ran (some command) none calling_user keys (_, known, other) (uid, e, o) =
        unprivileged_run command calling_user calling_user keys known other e o
    helper_ran (some command) (some user) calling_user keys (_, known, other) (uid, e, o) =
        unprivileged_run command user calling_user keys known other e o

    -- If commands are run as src/cmd.rs runs them, `strict` is among the arguments and
    -- `sm_authenticate` returns PAM_SUCCESS, then the call is granted by the rules of strict mode,
    -- and a helper that is configured was an executable that root controls, run with the calling
    -- user's name for its argument, without descendants, as a local account that is not root, to a
    -- complete end with the status 0; the keys that it adds are those of its output.
    pub sm_authenticate-helper :
        (arguments : List Bytes) (handle : PamHandleExt) (state : State C A R)
        → strict_flag arguments ≡ true
        → (sm_authenticate C A R p arguments handle state).0 ≡ pam_success
        → (g : IsStrictlyGranted C A R p arguments handle state) × HelperRan s p.host p.fs
            g.granted.args.authorized_keys_command g.granted.args.authorized_keys_command_user
            g.granted.context.calling_user g.commanded
    sm_authenticate-helper arguments handle state flag h =
        let g = sm_authenticate-strict C A R p arguments handle state flag h in
        (
          g,
          helper_ran g.granted.args.authorized_keys_command
              g.granted.args.authorized_keys_command_user g.granted.context.calling_user g.commanded
              g.helper g.output,
        )
