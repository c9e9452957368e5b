-- ===== src/Auth/Session.antt =====
-- The loop of `authenticate`, as a relation and by what its results imply.
pub mod Sound
pub mod Complete
pub mod Refusals
pub mod Requests
pub mod Native
use pam_ssh_agent.Common.{
  ℕ, Bytes, List, [], ◌∷◌, Bool, true, false, not, ◌&&◌, ◌||◌, Option, none, some, if◌then◌else◌,
  Result, ok, err, Error, remote_failure, ◌>>=◌, ◌≡◌, ◌≢◌, ◌↔◌, ◌⊎◌, inl, inr, refl, sym, ap, ◌∙◌,
  subst, arith, >>=-eq-ok, ok_injective, Bool-cases,
}
use pam_ssh_agent.SshKeys.{SshKeys, Identity, public_key, certificate}
use pam_ssh_agent.Filter.Identities.{IdentityFilter, filter}
use pam_ssh_agent.Auth.{
  SystemTime, Agent, Random, World, is_eligible, is_remote_failure, sign_and_verify, decide_outcome,
  proceed, attempt, try_identities, authenticate,
}

decide_other : (r : Result Bool) → r ≢ err remote_failure → decide_outcome r ≡ some r
unfolding decide_outcome
decide_other (ok b) h = refl
decide_other (err e) h = ground arith

refused-cases : (r : Result Bool) → (r ≡ err remote_failure) ⊎ (r ≢ err remote_failure)
refused-cases (ok b) = inr (λ h. cc)
refused-cases (err remote_failure) = inl refl
refused-cases (err e) = inr (λ h. cc)

module _ (C : SshKeys) (A : Agent C) (R : Random C) (f : IdentityFilter C.KeyData)
    (now : SystemTime) (principal : Bytes) where
  open C use {KeyData, Certificate}

  -- The runs that the loop may make over the identities, from a world to a result and a world.
  pub data Run
      : List (Identity KeyData Certificate) → World C A R → Result Bool → World C A R → Type 0 where
    exhausted : (w : World C A R) → Run [] w (ok false) w
    passed_over :
        {identity : Identity KeyData Certificate} {rest : List (Identity KeyData Certificate)}
        {w w' : World C A R} {r : Result Bool}
        → is_eligible C f now principal identity ≡ false
        → Run rest w r w'
        → Run (identity ∷ rest) w r w'
    refused :
        {identity : Identity KeyData Certificate} {rest : List (Identity KeyData Certificate)}
        {w w₁ w' : World C A R} {r : Result Bool}
        → is_eligible C f now principal identity ≡ true
        → sign_and_verify C A R identity f.strict w ≡ (err remote_failure, w₁)
        → Run rest w₁ r w'
        → Run (identity ∷ rest) w r w'
    decided :
        {identity : Identity KeyData Certificate} {rest : List (Identity KeyData Certificate)}
        {w w' : World C A R} {r : Result Bool}
        → is_eligible C f now principal identity ≡ true
        → sign_and_verify C A R identity f.strict w ≡ (r, w')
        → r ≢ err remote_failure
        → Run (identity ∷ rest) w r w'

  attempt_eligible :
      (identity : Identity KeyData Certificate) (w : World C A R) {w' : World C A R}
      {r : Result Bool}
      → is_eligible C f now principal identity ≡ true
      → sign_and_verify C A R identity f.strict w ≡ (r, w')
      → attempt C A R f now principal identity w ≡ (decide_outcome r, w')
  unfolding attempt
  attempt_eligible identity w e signed = rw e (ap (λ (r, w'). (decide_outcome r, w')) signed)

  pub try_passed :
      (identity : Identity KeyData Certificate) (rest : List (Identity KeyData Certificate))
      (w : World C A R)
      → is_eligible C f now principal identity ≡ false
      → try_identities C A R f now principal (identity ∷ rest) w
        ≡ try_identities C A R f now principal rest w
  unfolding try_identities proceed attempt
  try_passed identity rest w e = rw e refl

  pub try_refused :
      (identity : Identity KeyData Certificate) (rest : List (Identity KeyData Certificate))
      (w : World C A R) {w₁ : World C A R}
      → is_eligible C f now principal identity ≡ true
      → sign_and_verify C A R identity f.strict w ≡ (err remote_failure, w₁)
      → try_identities C A R f now principal (identity ∷ rest) w
        ≡ try_identities C A R f now principal rest w₁
  unfolding try_identities proceed decide_outcome
  try_refused identity rest w e signed = rw (attempt_eligible identity w e signed) refl

  pub try_decided :
      (identity : Identity KeyData Certificate) (rest : List (Identity KeyData Certificate))
      (w : World C A R) {w' : World C A R} {r : Result Bool}
      → is_eligible C f now principal identity ≡ true
      → sign_and_verify C A R identity f.strict w ≡ (r, w')
      → r ≢ err remote_failure
      → try_identities C A R f now principal (identity ∷ rest) w ≡ (r, w')
  unfolding try_identities proceed
  try_decided identity rest w {r} e signed other =
      rw (attempt_eligible identity w e signed, decide_other r other) refl

  -- What the loop of `authenticate` returns, and the world behind it, are those of a run.
  pub try_identities-Run :
      (identities : List (Identity KeyData Certificate)) (w : World C A R)
      → Run identities w
          (try_identities C A R f now principal identities w).0
          (try_identities C A R f now principal identities w).1
  try_identities-Run [] w = unfold try_identities in exhausted w
  try_identities-Run (identity ∷ rest) w =
      elim (Bool-cases (is_eligible C f now principal identity)) [
        | inl e ↦ elim (refused-cases (sign_and_verify C A R identity f.strict w).0) [
          | inl gone ↦
              rw
                (try_refused identity rest w e
                  (λ i. (gone i, (sign_and_verify C A R identity f.strict w).1)))
                (refused e (λ i. (gone i, (sign_and_verify C A R identity f.strict w).1))
                  (try_identities-Run rest _))
          | inr other ↦ rw (try_decided identity rest w e refl other) (decided e refl other)
        ]
        | inr e ↦ rw (try_passed identity rest w e) (passed_over e (try_identities-Run rest w))
      ]

  -- Every run gives the result and the world that the loop returns: the loop has no other run.
  pub Run-try_identities :
      {identities : List (Identity KeyData Certificate)} {w w' : World C A R} {r : Result Bool}
      → Run identities w r w'
      → try_identities C A R f now principal identities w ≡ (r, w')
  Run-try_identities (exhausted w) = unfold try_identities in refl
  Run-try_identities (passed_over e run) = try_passed _ _ _ e ∙ Run-try_identities run
  Run-try_identities (refused e signed run) = try_refused _ _ _ e signed ∙ Run-try_identities run
  Run-try_identities (decided e signed other) = try_decided _ _ _ e signed other

  -- The loop of `authenticate` refines the step relation and leaves nothing of it out: it returns a
  -- result and a world exactly if a run of the relation ends with them.
  pub try_identities_iff :
      (identities : List (Identity KeyData Certificate)) (w w' : World C A R) (r : Result Bool)
      → (try_identities C A R f now principal identities w ≡ (r, w')) ↔ Run identities w r w'
  try_identities_iff identities w w' r = (
    λ h. subst (λ (r, w'). Run identities w r w') h (try_identities-Run identities w),
    λ run. Run-try_identities run,
  )
