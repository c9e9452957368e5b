-- ===== src/Auth/Session/Complete.antt =====
-- Whom `authenticate` lets in: exactly the holder of an identity that passes.
use pam_ssh_agent.Common.{Bytes, List, Bool, true, ok, ◌≡◌, ◌↔◌, refl, ap, ◌∙◌}
use pam_ssh_agent.SshKeys.{SshKeys, Identity}
use pam_ssh_agent.Filter.Identities.{IdentityFilter}
use pam_ssh_agent.Auth.{
  SystemTime, Agent, Random, World, verify, is_eligible, check_signature, answer_challenge,
  sign_and_verify, try_identities, try_listed, authenticate,
}
use pam_ssh_agent.Auth.Eligible.{is_eligible_iff, is_eligible-not, IsVerified-iff, IsPermitted-iff}
use pam_ssh_agent.Auth.Session.{try_passed, try_refused, try_decided}
use pam_ssh_agent.Auth.Session.Sound.{
  IsRefused-sign_and_verify, Possession, sign_and_verify_lem, IsTried, here, behind_ineligible,
  behind_refused, Accepted, authenticate_lem, authenticate_sound,
}

module _ (C : SshKeys) (A : Agent C) (R : Random C) where
  open C use {KeyData, Certificate}

  Possession-sign_and_verify :
      (identity : Identity KeyData Certificate) (strict : Bool) (w : World C A R)
      → Possession C A R identity strict w
      → (sign_and_verify C A R identity strict w).0 ≡ ok true
  unfolding answer_challenge check_signature verify
  Possession-sign_and_verify identity strict w p =
      ap (λ r. r.0) (sign_and_verify_lem C A R identity strict w p.drawn)
      ∙ rw
          (
            p.signed,
            (IsPermitted-iff C identity strict p.signature).1 p.present,
            (IsVerified-iff C identity p.challenge p.signature).1 p.verified,
          )
          refl

  module _ (f : IdentityFilter KeyData) (now : SystemTime) (principal : Bytes) where
    IsTried-try_identities :
        {identities : List (Identity KeyData Certificate)} {w w' : World C A R}
        {identity : Identity KeyData Certificate}
        → IsTried C A R f now principal identities w identity w'
        → is_eligible C f now principal identity ≡ true
        → (sign_and_verify C A R identity f.strict w').0 ≡ ok true
        → (try_identities C A R f now principal identities w).0 ≡ ok true
    IsTried-try_identities (here {identity} {rest} {w}) e good =
        ap (λ r. r.0)
          (try_decided C A R f now principal identity rest w e
            (λ i. (good i, (sign_and_verify C A R identity f.strict w).1)) (λ h. cc))
    IsTried-try_identities (behind_ineligible {other} {rest} {w} skip tried) e good =
        ap (λ r. r.0)
          (try_passed C A R f now principal other rest w
            ((is_eligible-not C f now principal other).1 skip))
        ∙ IsTried-try_identities tried e good
    IsTried-try_identities (behind_refused {other} {rest} {w} passes gone tried) e good =
        ap (λ r. r.0)
          (try_refused C A R f now principal other rest w
            ((is_eligible_iff C f now principal other).1 passes)
            (IsRefused-sign_and_verify C A R other f.strict w _ gone))
        ∙ IsTried-try_identities tried e good

    -- `authenticate` returns true exactly if the agent has listed an identity which the filter trusts
    -- (and, if it is a certificate, which is valid for the user now); the loop came to it, from the
    -- states of the agent and of the randomness behind the listing, over identities that were not
    -- eligible or that the agent refused; and the agent signed a challenge drawn for it there with the
    -- identity's key, a security key with presence and verification in strict mode.
    pub authenticate_iff :
        (w : World C A R)
        → ((authenticate C A R f now principal w).0 ≡ ok true) ↔ (
            (identities : List (Identity KeyData Certificate)) × ((A.list_identities w.0).0
              ≡ ok identities)
            × Accepted C A R f now principal identities ((A.list_identities w.0).1, w.1))
    unfolding try_listed
    authenticate_iff w = (
      λ h. authenticate_sound C A R f now principal w h,
      λ (identities, listed, a).
          ap (λ r. r.0) (authenticate_lem C A R f now principal w listed)
          ∙ IsTried-try_identities a.tried
              ((is_eligible_iff C f now principal a.identity).1 a.eligible)
              (Possession-sign_and_verify a.identity f.strict a.world a.possession),
    )
