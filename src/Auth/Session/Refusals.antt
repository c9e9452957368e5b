-- ===== src/Auth/Session/Refusals.antt =====
-- When `authenticate` goes on to the next identity, and when it ends.
use pam_ssh_agent.Common.{
  ◌↔◌, Bytes, List, [], ◌∷◌, Bool, true, false, some, if◌then◌else◌, All, Result, ok, err,
  signature_error, ◌≡◌, inl, inr, refl, sym, ap, ◌∙◌, Bool-cases, Result-cases, ◌++◌,
}
use pam_ssh_agent.SshKeys.{SshKeys, Identity}
use pam_ssh_agent.Filter.Identities.{IdentityFilter}
use pam_ssh_agent.Auth.{
  SystemTime, Agent, Random, World, challenge_size, subject_key, verify, validate_sk_signature,
  is_eligible, check_signature, answer_challenge, sign_and_verify, try_identities, try_listed,
  authenticate,
}
use pam_ssh_agent.Auth.Session.{
  try_identities_iff, Run, exhausted, passed_over, refused, decided, try_identities-Run,
  Run-try_identities, try_passed, try_decided,
}
use pam_ssh_agent.Auth.Session.Sound.{
  sign_and_verify_lem, sign_and_verify-ok, authenticate_lem, IsRefused, sign_and_verify-IsRefused,
  IsRefused-sign_and_verify,
}
use pam_ssh_agent.Auth.Eligible.{IsEligible, is_eligible_iff, is_eligible-not}

module _ (C : SshKeys) (A : Agent C) (R : Random C) (f : IdentityFilter C.KeyData)
    (now : SystemTime) (principal : Bytes) where
  open C use {KeyData, Certificate}

  -- The loop goes over the whole list, from a world to a world, without a decision: each identity is
  -- not eligible, or it is and the agent, asked to sign a challenge in the world that the loop has come
  -- to, reports a remote failure.
  pub data IsExhausted
      : List (Identity KeyData Certificate) → World C A R → World C A R → Type 0 where
    nothing_left : (w : World C A R) → IsExhausted [] w w
    skips_ineligible :
        {identity : Identity KeyData Certificate} {rest : List (Identity KeyData Certificate)}
        {w w' : World C A R}
        → ¬ IsEligible C f now principal identity
        → IsExhausted rest w w'
        → IsExhausted (identity ∷ rest) w w'
    skips_refused :
        {identity : Identity KeyData Certificate} {rest : List (Identity KeyData Certificate)}
        {w w₁ w' : World C A R}
        → IsEligible C f now principal identity
        → IsRefused C A R identity w w₁
        → IsExhausted rest w₁ w'
        → IsExhausted (identity ∷ rest) w w'

  Run-IsExhausted :
      {identities : List (Identity KeyData Certificate)} {w w' : World C A R} {r : Result Bool}
      → Run C A R f now principal identities w r w'
      → r ≡ ok false
      → IsExhausted identities w w'
  Run-IsExhausted (exhausted w) h = nothing_left w
  Run-IsExhausted (passed_over e run) h =
      skips_ineligible ((is_eligible-not C f now principal _).0 e) (Run-IsExhausted run h)
  Run-IsExhausted (refused e signed run) h =
      skips_refused ((is_eligible_iff C f now principal _).0 e)
        (sign_and_verify-IsRefused C A R _ f.strict _ _ signed) (Run-IsExhausted run h)
  Run-IsExhausted (decided {w} e signed other) h =
      absurd (cc ((sign_and_verify-ok C A R _ f.strict w signed h).0))

  IsExhausted-Run :
      {identities : List (Identity KeyData Certificate)} {w w' : World C A R}
      → IsExhausted identities w w'
      → Run C A R f now principal identities w (ok false) w'
  IsExhausted-Run (nothing_left w) = exhausted w
  IsExhausted-Run (skips_ineligible skip e) =
      passed_over ((is_eligible-not C f now principal _).1 skip) (IsExhausted-Run e)
  IsExhausted-Run (skips_refused passes gone e) =
      refused ((is_eligible_iff C f now principal _).1 passes)
        (IsRefused-sign_and_verify C A R _ f.strict _ _ gone) (IsExhausted-Run e)

  -- A run in which every identity is passed over ends with `false` and has asked the agent nothing.
  try_identities_none :
      (identities : List (Identity KeyData Certificate)) (w : World C A R)
      → All (λ identity. is_eligible C f now principal identity ≡ false) identities
      → try_identities C A R f now principal identities w ≡ (ok false, w)
  try_identities_none [] w h = unfold try_identities in refl
  try_identities_none (identity ∷ rest) w (e, others) =
      try_passed C A R f now principal identity rest w e ∙ try_identities_none rest w others

  -- The identities that are tried.
  pub eligible : List (Identity KeyData Certificate) → List (Identity KeyData Certificate)
  eligible [] = []
  eligible (identity ∷ rest) =
      if is_eligible C f now principal identity then identity ∷ eligible rest else eligible rest

  eligible-Run :
      {identities : List (Identity KeyData Certificate)} {w w' : World C A R} {r : Result Bool}
      → Run C A R f now principal identities w r w'
      → Run C A R f now principal (eligible identities) w r w'
  unfolding eligible
  eligible-Run (exhausted w) = exhausted w
  eligible-Run (passed_over e run) = rw e (eligible-Run run)
  eligible-Run (refused e signed run) = rw e (refused e signed (eligible-Run run))
  eligible-Run (decided e signed other) = rw e (decided e signed other)

  -- Identities that the filter or the certificate's tests reject have no influence on the result
  -- or on the agent: the loop does the same over the eligible ones alone.
  pub try_identities-eligible :
      (identities : List (Identity KeyData Certificate)) (w : World C A R)
      → try_identities C A R f now principal (eligible identities) w
        ≡ try_identities C A R f now principal identities w
  try_identities-eligible identities w =
      Run-try_identities C A R f now principal
        (eligible-Run (try_identities-Run C A R f now principal identities w))

  -- `authenticate` returns false, with a world behind it, exactly if the agent lists identities and
  -- the loop goes over all of them to that world without a decision: in this run each was not
  -- eligible, or was and the agent has answered the request to sign the challenge drawn for it with a
  -- remote failure.
  pub authenticate-false_iff :
      (w w' : World C A R)
      → (authenticate C A R f now principal w ≡ (ok false, w')) ↔ (
          (identities : List (Identity KeyData Certificate)) × ((A.list_identities w.0).0
            ≡ ok identities)
          × IsExhausted identities ((A.list_identities w.0).1, w.1) w')
  unfolding try_listed
  authenticate-false_iff w w' = (
    λ h. elim (Result-cases (A.list_identities w.0).0) [
      | inl (identities, e) ↦
          let ran = sym (authenticate_lem C A R f now principal w e) ∙ h in
          (
            identities,
            e,
            Run-IsExhausted
                ((try_identities_iff C A R f now principal identities _ w' (ok false)).0 ran) refl,
          )
      | inr (error, e) ↦
          absurd (cc (ap (λ p. p.0) (sym (authenticate_lem C A R f now principal w e) ∙ h)))
    ],
    λ (identities, e, all_skipped).
        authenticate_lem C A R f now principal w e
        ∙ Run-try_identities C A R f now principal (IsExhausted-Run all_skipped),
  )

  try_after_passed :
      (passed rest : List (Identity KeyData Certificate)) (w : World C A R)
      → All (λ identity. is_eligible C f now principal identity ≡ false) passed
      → try_identities C A R f now principal (passed ++ rest) w
        ≡ try_identities C A R f now principal rest w
  try_after_passed [] rest w h = refl
  try_after_passed (identity ∷ passed) rest w (e, others) =
      try_passed C A R f now principal identity (passed ++ rest) w e
      ∙ try_after_passed passed rest w others

  sign_and_verify_bad :
      (identity : Identity KeyData Certificate) (w : World C A R) (challenge : Bytes)
      (sig : C.Signature)
      → (R.fill w.1 challenge_size).0 ≡ some challenge
      → (A.sign w.0 identity challenge).0 ≡ ok sig
      → validate_sk_signature C identity sig ≡ ok tt
      → C.verifies (subject_key C identity) challenge sig ≡ false
      → (sign_and_verify C A R identity f.strict w).0 ≡ err signature_error
  unfolding answer_challenge check_signature verify
  sign_and_verify_bad identity w challenge sig drawn signed present bad =
      ap (λ p. p.0) (sign_and_verify_lem C A R identity f.strict w drawn)
      ∙ rw signed (elim (Bool-cases f.strict) [
        | inl s ↦ rw (s, present, bad) refl
        | inr s ↦ rw (s, bad) refl
      ])

  -- A wrong signature ends the authentication with an error: the first identity that is tried
  -- decides, and none behind it is tried.
  pub try_identities-bad_signature :
      (passed rest : List (Identity KeyData Certificate)) (identity : Identity KeyData Certificate)
      (w : World C A R) (challenge : Bytes) (sig : C.Signature)
      → All (λ other. is_eligible C f now principal other ≡ false) passed
      → is_eligible C f now principal identity ≡ true
      → (R.fill w.1 challenge_size).0 ≡ some challenge
      → (A.sign w.0 identity challenge).0 ≡ ok sig
      → validate_sk_signature C identity sig ≡ ok tt
      → C.verifies (subject_key C identity) challenge sig ≡ false
      → (try_identities C A R f now principal (passed ++ identity ∷ rest) w).0 ≡ err signature_error
  try_identities-bad_signature passed rest identity w challenge sig skip e drawn signed present
        bad =
      ap (λ p. p.0) (try_after_passed passed (identity ∷ rest) w skip)
      ∙ ap (λ p. p.0)
          (try_decided C A R f now principal identity rest w e
            (λ i. (
              sign_and_verify_bad identity w challenge sig drawn signed present bad i,
              (sign_and_verify C A R identity f.strict w).1,
            ))
            (λ h. cc))
