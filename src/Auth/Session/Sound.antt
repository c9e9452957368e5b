-- ===== src/Auth/Session/Sound.antt =====
-- What the answers of `authenticate` mean.
use pam_ssh_agent.Common.{
  ◌≢◌, Bytes, List, ◌∷◌, Bool, true, Option, some, if◌then◌else◌, In, Result, ok, err,
  remote_failure, ◌≡◌, inl, inr, refl, sym, ap, ◌∙◌, arith, >>=-eq-ok, Option-cases, Result-cases,
}
use pam_ssh_agent.SshKeys.{SshKeys, Identity}
use pam_ssh_agent.Filter.Identities.{IdentityFilter}
use pam_ssh_agent.Auth.{
  SystemTime, Agent, Random, World, challenge_size, expected_algorithm, check_sk_signature,
  subject_key, verify, validate_sk_signature, check_signature, answer_challenge, sign_and_verify,
  try_listed, authenticate,
}
use pam_ssh_agent.Auth.SecurityKeys.{IsPermitted}
use pam_ssh_agent.Auth.Eligible.{
  IsEligible, is_eligible_iff, is_eligible-not, IsVerified, IsVerified-iff, IsPermitted-iff,
}
use pam_ssh_agent.Auth.Session.{Run, exhausted, passed_over, refused, decided, try_identities-Run}

module _ (C : SshKeys) (A : Agent C) (R : Random C) where
  open C use {KeyData, Certificate}

  -- The agent has signed a challenge that was drawn for it, and the signature is the identity's.
  pub record Possession (identity : Identity KeyData Certificate) (strict : Bool) (w : World C A R)
      : Type 0 where
    pub challenge : Bytes
    pub drawn : (R.fill w.1 challenge_size).0 ≡ some challenge
    pub signature : C.Signature
    pub signed : (A.sign w.0 identity challenge).0 ≡ ok signature
    pub present : strict ≡ true → IsPermitted C identity signature
    pub verified : IsVerified C identity challenge signature

  -- The agent was asked to sign a challenge that was drawn for the identity, and has reported a
  -- remote failure; the other world is the one behind that.
  pub record IsRefused (identity : Identity KeyData Certificate) (w w₁ : World C A R) : Type 0 where
    pub challenge : Bytes
    pub drawn : (R.fill w.1 challenge_size).0 ≡ some challenge
    pub failed : (A.sign w.0 identity challenge).0 ≡ err remote_failure
    pub next : ((A.sign w.0 identity challenge).1, (R.fill w.1 challenge_size).1) ≡ w₁

  check_signature-ok :
      (identity : Identity KeyData Certificate) (strict : Bool) (challenge : Bytes)
      (answer : Result C.Signature) {b : Bool}
      → check_signature C A R identity strict challenge answer ≡ ok b
      → (sig : C.Signature) × (answer ≡ ok sig)
        × ((if strict then validate_sk_signature C identity sig else ok tt) ≡ ok tt)
        × (C.verifies (subject_key C identity) challenge sig ≡ true)
        × (b ≡ true)
  unfolding check_signature verify
  check_signature-ok identity strict challenge answer h =
      let (sig, e, k) = >>=-eq-ok answer _ h in
      let (_, e', k') =
        >>=-eq-ok (if strict then validate_sk_signature C identity sig else ok tt) _ k in
      (sig, e, e', ground arith, ground arith)

  pub sign_and_verify_lem :
      (identity : Identity KeyData Certificate) (strict : Bool) (w : World C A R)
      {drawn : Option Bytes}
      → (R.fill w.1 challenge_size).0 ≡ drawn
      → sign_and_verify C A R identity strict w
        ≡ answer_challenge C A R identity strict w.0 (R.fill w.1 challenge_size).1 drawn
  unfolding sign_and_verify
  sign_and_verify_lem identity strict w e =
      ap (answer_challenge C A R identity strict w.0 (R.fill w.1 challenge_size).1) e

  -- `sign_and_verify` succeeds only with `true`, and only on a proof of possession.
  pub sign_and_verify-ok :
      (identity : Identity KeyData Certificate) (strict : Bool) (w : World C A R) {r : Result Bool}
      {w' : World C A R} {b : Bool}
      → sign_and_verify C A R identity strict w ≡ (r, w')
      → r ≡ ok b
      → (b ≡ true) × Possession identity strict w
  unfolding answer_challenge
  sign_and_verify-ok identity strict w h good = elim (Option-cases (R.fill w.1 challenge_size).0) [
    | inl nothing ↦ absurd (cc (sign_and_verify_lem identity strict w nothing))
    | inr (challenge, drawn) ↦
        let done = sym (sign_and_verify_lem identity strict w drawn) ∙ h in
        let (sig, signed, present, verified, yes_) =
          check_signature-ok identity strict challenge (A.sign w.0 identity challenge).0
            (ap (λ p. p.0) done ∙ good) in
        (
          yes_,
          record {
            challenge = challenge;
            drawn = drawn;
            signature = sig;
            signed = signed;
            present = (IsPermitted-iff C identity strict sig).0 present;
            verified = (IsVerified-iff C identity challenge sig).0 verified;
          },
        )
  ]

  validate_sk_signature-message :
      (identity : Identity KeyData Certificate) (signature : C.Signature)
      → validate_sk_signature C identity signature ≢ err remote_failure
  unfolding validate_sk_signature check_sk_signature
  validate_sk_signature-message identity signature h =
      elim (Option-cases (expected_algorithm C (subject_key C identity))) [
        | inl plain ↦ ground (arith, plain)
        | inr (expected, e) ↦ ground (arith, e)
      ]

  check_signature-refused :
      (identity : Identity KeyData Certificate) (strict : Bool) (challenge : Bytes)
      (answer : Result C.Signature)
      → check_signature C A R identity strict challenge answer ≡ err remote_failure
      → answer ≡ err remote_failure
  unfolding check_signature verify
  check_signature-refused identity strict challenge (err e) h = cc
  check_signature-refused identity strict challenge (ok sig) h =
      ground (arith, validate_sk_signature-message identity sig)

  pub sign_and_verify-IsRefused :
      (identity : Identity KeyData Certificate) (strict : Bool) (w w₁ : World C A R)
      → sign_and_verify C A R identity strict w ≡ (err remote_failure, w₁)
      → IsRefused identity w w₁
  unfolding answer_challenge
  sign_and_verify-IsRefused identity strict w w₁ h =
      elim (Option-cases (R.fill w.1 challenge_size).0) [
        | inl nothing ↦ absurd (cc (sign_and_verify_lem identity strict w nothing))
        | inr (challenge, drawn) ↦
            let done = sym (sign_and_verify_lem identity strict w drawn) ∙ h in
            record {
              challenge = challenge;
              drawn = drawn;
              failed =
                  check_signature-refused identity strict challenge
                    (A.sign w.0 identity challenge).0 (ap (λ p. p.0) done);
              next = ap (λ p. p.1) done;
            }
      ]

  pub IsRefused-sign_and_verify :
      (identity : Identity KeyData Certificate) (strict : Bool) (w w₁ : World C A R)
      → IsRefused identity w w₁
      → sign_and_verify C A R identity strict w ≡ (err remote_failure, w₁)
  unfolding answer_challenge check_signature
  IsRefused-sign_and_verify identity strict w w₁ r =
      sign_and_verify_lem identity strict w r.drawn
      ∙ (λ i. (check_signature C A R identity strict r.challenge (r.failed i), r.next i))

  module _ (f : IdentityFilter KeyData) (now : SystemTime) (principal : Bytes) where
    -- The loop over the identities comes to one of them, in a world: those before it were not
    -- eligible, or were and the agent has refused them.
    pub data IsTried
        : List (Identity KeyData Certificate)
          → World C A R
          → Identity KeyData Certificate
          → World C A R
          → Type 0 where
      here :
          {identity : Identity KeyData Certificate} {rest : List (Identity KeyData Certificate)}
          {w : World C A R}
          → IsTried (identity ∷ rest) w identity w
      behind_ineligible :
          {other identity : Identity KeyData Certificate}
          {rest : List (Identity KeyData Certificate)} {w w' : World C A R}
          → ¬ IsEligible C f now principal other
          → IsTried rest w identity w'
          → IsTried (other ∷ rest) w identity w'
      behind_refused :
          {other identity : Identity KeyData Certificate}
          {rest : List (Identity KeyData Certificate)} {w w₁ w' : World C A R}
          → IsEligible C f now principal other
          → IsRefused other w w₁
          → IsTried rest w₁ identity w'
          → IsTried (other ∷ rest) w identity w'

    -- An identity of the list that the loop has come to from its first world on, with success.
    pub record Accepted (identities : List (Identity KeyData Certificate)) (start : World C A R)
        : Type 0 where
      pub identity : Identity KeyData Certificate
      pub offered : In identity identities
      pub eligible : IsEligible C f now principal identity
      pub world : World C A R
      pub tried : IsTried identities start identity world
      pub possession : Possession identity f.strict world

    Accepted-cons :
        (other : Identity KeyData Certificate) (rest : List (Identity KeyData Certificate))
        (start next : World C A R) (a : Accepted rest next)
        → IsTried (other ∷ rest) start a.identity a.world
        → Accepted (other ∷ rest) start
    Accepted-cons other rest start next a tried = record {
      identity = a.identity;
      offered = inr a.offered;
      eligible = a.eligible;
      world = a.world;
      tried = tried;
      possession = a.possession;
    }

    Run-Accepted :
        {identities : List (Identity KeyData Certificate)} {w w' : World C A R} {r : Result Bool}
        → Run C A R f now principal identities w r w'
        → r ≡ ok true
        → Accepted identities w
    Run-Accepted (exhausted w) h = absurd (cc)
    Run-Accepted (passed_over e run) h =
        let a = Run-Accepted run h in
        Accepted-cons _ _ _ _ a
          (behind_ineligible ((is_eligible-not C f now principal _).0 e) a.tried)
    Run-Accepted (refused e signed run) h =
        let a = Run-Accepted run h in
        Accepted-cons _ _ _ _ a (
          behind_refused ((is_eligible_iff C f now principal _).0 e)
            (sign_and_verify-IsRefused _ f.strict _ _ signed) a.tried)
    Run-Accepted (decided {identity} {w} e signed other) h = record {
      identity = identity;
      offered = inl refl;
      eligible = (is_eligible_iff C f now principal identity).0 e;
      world = w;
      tried = here;
      possession = (sign_and_verify-ok identity f.strict w signed h).1;
    }

    pub authenticate_lem :
        (w : World C A R) {listed : Result (List (Identity KeyData Certificate))}
        → (A.list_identities w.0).0 ≡ listed
        → authenticate C A R f now principal w
          ≡ try_listed C A R f now principal listed ((A.list_identities w.0).1, w.1)
    unfolding authenticate
    authenticate_lem w e =
        ap (λ l. try_listed C A R f now principal l ((A.list_identities w.0).1, w.1)) e

    -- Success means that the agent has listed an identity which the filter trusts (and, if it is a
    -- certificate, which is valid for the user now); that the loop came to it, from the states of the
    -- agent and of the randomness behind the listing, over identities that were not eligible or that
    -- the agent refused; and that the agent signed a challenge drawn for it there with the identity's
    -- key, a security key with presence and verification in strict mode.
    pub authenticate_sound :
        (w : World C A R)
        → (authenticate C A R f now principal w).0 ≡ ok true
        → (identities : List (Identity KeyData Certificate)) × ((A.list_identities w.0).0
            ≡ ok identities)
          × Accepted identities ((A.list_identities w.0).1, w.1)
    unfolding try_listed
    authenticate_sound w h = elim (Result-cases (A.list_identities w.0).0) [
      | inl (identities, e) ↦ (
        identities,
        e,
        Run-Accepted
            (try_identities-Run C A R f now principal identities ((A.list_identities w.0).1, w.1))
            (sym (ap (λ p. p.0) (authenticate_lem w e)) ∙ h),
      )
      | inr (error, e) ↦ absurd (cc (ap (λ p. p.0) (authenticate_lem w e)))
    ]
