-- ===== src/Auth/Eligible.antt =====
-- Which identities `authenticate` tries, and what a signature has to be, as the reader knows it from
-- the certificates' and the security keys' own theorems.
use pam_ssh_agent.Common.{
  Bytes, Bool, true, false, if◌then◌else◌, ok, ◌≡◌, ◌↔◌, refl, arith, Bool-cases, inl, inr,
}
use pam_ssh_agent.SshKeys.{SshKeys, Identity, public_key, certificate}
use pam_ssh_agent.Filter.Identities.{IdentityFilter, filter}
use pam_ssh_agent.Auth.{SystemTime, subject_key, validate_sk_signature, is_eligible}
use pam_ssh_agent.Auth.Certificates.{IsValid, validate_cert_iff}
use pam_ssh_agent.Auth.SecurityKeys.{IsPermitted, validate_sk_signature_iff}

module _ (C : SshKeys) where
  open C use {KeyData, Certificate, Signature}

  -- The filter accepts the identity, and a certificate is valid for the user at the time.
  abbrev pub IsEligible :
      IdentityFilter KeyData → SystemTime → Bytes → Identity KeyData Certificate → Type 0
  IsEligible f now principal (public_key k) = filter C f (public_key k) ≡ true
  IsEligible f now principal (certificate cert) =
      (filter C f (certificate cert) ≡ true) × IsValid C cert principal now

  pub is_eligible_iff :
      (f : IdentityFilter KeyData) (now : SystemTime) (principal : Bytes)
      (identity : Identity KeyData Certificate)
      → (is_eligible C f now principal identity ≡ true) ↔ IsEligible f now principal identity
  unfolding is_eligible
  is_eligible_iff f now principal (public_key k) = (λ h. h, λ h. h)
  is_eligible_iff f now principal (certificate cert) =
      ground (arith, validate_cert_iff C cert principal now)

  pub is_eligible-not :
      (f : IdentityFilter KeyData) (now : SystemTime) (principal : Bytes)
      (identity : Identity KeyData Certificate)
      → (is_eligible C f now principal identity ≡ false) ↔ (¬ IsEligible f now principal identity)
  is_eligible-not f now principal identity =
      let both = is_eligible_iff f now principal identity in
      elim (Bool-cases (is_eligible C f now principal identity)) [
        | inl e ↦ (λ h. absurd (cc), λ no. absurd (no (both.0 e)))
        | inr e ↦ (λ h k. cc (both.1 k), λ _. e)
      ]

  -- The signature is right for the key of the identity: a certificate's is the one that it certifies.
  abbrev pub IsVerified : Identity KeyData Certificate → Bytes → Signature → Type 0
  IsVerified (public_key k) message signature = C.verifies k message signature ≡ true
  IsVerified (certificate cert) message signature =
      C.verifies (C.certified_key cert) message signature ≡ true

  pub IsVerified-iff :
      (identity : Identity KeyData Certificate) (message : Bytes) (signature : Signature)
      → (C.verifies (subject_key C identity) message signature ≡ true)
        ↔ IsVerified identity message signature
  unfolding subject_key
  IsVerified-iff (public_key k) message signature = (λ h. h, λ h. h)
  IsVerified-iff (certificate cert) message signature = (λ h. h, λ h. h)

  pub IsPermitted-iff :
      (identity : Identity KeyData Certificate) (strict : Bool) (signature : Signature)
      → ((if strict then validate_sk_signature C identity signature else ok tt) ≡ ok tt)
        ↔ (strict ≡ true → IsPermitted C identity signature)
  IsPermitted-iff identity true signature = (
    λ h _. (validate_sk_signature_iff C identity signature).0 h,
    λ k. (validate_sk_signature_iff C identity signature).1 (k refl),
  )
  IsPermitted-iff identity false signature = (λ h e. absurd (cc), λ _. refl)
