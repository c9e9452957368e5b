-- ===== src/Auth/Certificates.antt =====
-- `validate_cert`: exactly which certificates are valid.
use pam_ssh_agent.Common.{
  ℕ, Bytes, bytes_eq, bytes_eq_sound, bytes_eq_refl, List, [], ◌∷◌, true, any, is_empty, In, ok,
  ◌≡◌, ◌↔◌, inl, inr, refl, subst, arith, Result-cases,
}
use pam_ssh_agent.SshKeys.{SshKeys}
use pam_ssh_agent.Auth.{SystemTime, before_epoch, after_epoch, validate_cert}

any-In : (p : Bytes) (names : List Bytes) → any (λ name. bytes_eq name p) names ≡ true → In p names
any-In p [] h = absurd (cc)
any-In p (name ∷ names) h = ground (arith, bytes_eq_sound name p, any-In p names)

In-any : (p : Bytes) (names : List Bytes) → In p names → any (λ name. bytes_eq name p) names ≡ true
In-any p [] h = absurd h
In-any p (name ∷ names) (inl e) = rw (← e, bytes_eq_refl p)
In-any p (name ∷ names) (inr h) = ground (arith, In-any p names h)

is_empty_iff {ℓ} : {A : Type ℓ} (xs : List A) → (is_empty xs ≡ true) ↔ (xs ≡ [])
is_empty_iff [] = (λ _. refl, λ _. refl)
is_empty_iff (_ ∷ _) = (λ h. cc, λ h. cc)

module _ (C : SshKeys) (cert : C.Certificate) (principal : Bytes) where
  open C use {Certificate}

  -- What makes a certificate valid for a user at a time: the clock is not before 1970, ssh-key
  -- finds the signature of its own authority and the period good, it is a user certificate, names
  -- the user among its principals and has no critical option.
  pub record IsValid (when : SystemTime) : Type 0 where
    pub seconds : ℕ
    pub clock : when ≡ after_epoch seconds
    pub signed : C.validate_at cert seconds (C.fingerprint (C.signature_key cert) ∷ []) ≡ ok tt
    pub for_user : C.is_user cert ≡ true
    pub named : In principal (C.valid_principals cert)
    pub plain : C.critical_options cert ≡ []

  validated :
      (n : ℕ)
      → validate_cert C cert (after_epoch n) principal ≡ true
      → C.validate_at cert n (C.fingerprint (C.signature_key cert) ∷ []) ≡ ok tt
  unfolding validate_cert
  validated n h =
      elim (Result-cases (C.validate_at cert n (C.fingerprint (C.signature_key cert) ∷ []))) [
        | inl (u, e) ↦ e
        | inr (e, failed) ↦ absurd (ground arith)
      ]

  complete :
      (n : ℕ) → IsValid (after_epoch n) → validate_cert C cert (after_epoch n) principal ≡ true
  unfolding validate_cert
  complete n v =
      let same : v.seconds ≡ n = cc v.clock in
      let signed =
        subst (λ t. C.validate_at cert t (C.fingerprint (C.signature_key cert) ∷ []) ≡ ok tt) same
          v.signed in
      ground (
        arith,
        signed,
        v.for_user,
        In-any principal (C.valid_principals cert) v.named,
        (is_empty_iff (C.critical_options cert)).1 v.plain,
      )

  -- A certificate passes `validate_cert` exactly if it is valid.
  pub validate_cert_iff :
      (when : SystemTime) → (validate_cert C cert when principal ≡ true) ↔ IsValid when
  unfolding validate_cert
  validate_cert_iff (before_epoch n) = (λ h. absurd (cc), λ v. absurd (cc v.clock))
  validate_cert_iff (after_epoch n) = (
    λ h. record {
      seconds = n;
      clock = refl;
      signed = validated n h;
      for_user = ground arith;
      named = any-In principal (C.valid_principals cert) (ground arith);
      plain = (is_empty_iff (C.critical_options cert)).0 (ground arith);
    },
    λ v. complete n v,
  )
