-- ===== src/Pam/Shortcut.antt =====
-- `check_sshd_special_case`: exactly when sshd's own authentication is enough.
use pam_ssh_agent.Common.{
  Bytes, codes, bytes_eq_sound, bytes_eq_refl, true, Option, none, some, ok, ◌≡◌, ◌↔◌, refl, arith,
  >>=-eq-ok, ok_injective,
}
use pam_ssh_agent.Environment.{Environment}
use pam_ssh_agent.SshKeys.{SshKeys, public_key}
use pam_ssh_agent.Filter.Identities.{IdentityFilter, filter}
use pam_ssh_agent.Pam.{check_auth_info, check_sshd_special_case}

module _ (C : SshKeys) (f : IdentityFilter C.KeyData) (env : Environment) where
  -- sshd calls, and has left a key that the filter accepts as a public key.
  pub record IsShortcut (service : Bytes) : Type 0 where
    pub by_sshd : service ≡ codes "sshd"
    pub text : Bytes
    pub left : env.get_env (codes "SSH_AUTH_INFO_0") ≡ some text
    pub k : C.KeyData
    pub parsed : C.from_openssh text ≡ ok k
    pub accepted : filter C f (public_key k) ≡ true

  check_auth_info-IsShortcut :
      (service : Bytes) (info : Option Bytes)
      → env.get_env (codes "SSH_AUTH_INFO_0") ≡ info
      → service ≡ codes "sshd"
      → check_auth_info C info f ≡ ok true
      → IsShortcut service
  unfolding check_auth_info
  check_auth_info-IsShortcut service none e by_sshd h = absurd (cc)
  check_auth_info-IsShortcut service (some text) e by_sshd h =
      let (k, parsed, accepted) = >>=-eq-ok (C.from_openssh text) _ h in
      record {
        by_sshd = by_sshd;
        text = text;
        left = e;
        k = k;
        parsed = parsed;
        accepted = ok_injective _ _ accepted;
      }

  -- The shortcut is taken exactly for the service `sshd` with a trusted key in SSH_AUTH_INFO_0.
  pub check_sshd_special_case_iff :
      (service : Bytes)
      → (check_sshd_special_case C (some service) f env ≡ ok true) ↔ IsShortcut service
  unfolding check_sshd_special_case
  check_sshd_special_case_iff service = (
    λ h.
        check_auth_info-IsShortcut service _ refl
          (bytes_eq_sound service (codes "sshd") (ground arith)) (ground arith),
    λ s.
        rw (s.by_sshd, bytes_eq_refl (codes "sshd"), s.left)
          (unfold check_auth_info in rw (s.parsed, s.accepted) refl),
  )
