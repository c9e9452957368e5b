-- ===== src/Auth.antt =====
-- src/auth.rs, src/agent.rs and src/verify.rs: the identities that an agent offers, tried one by
-- one. The agent and the source of randomness are states that the code passes on.
pub mod Certificates
pub mod SecurityKeys
pub mod Eligible
pub mod Session
use Prim.Native.Nat.{bit_and}
use pam_ssh_agent.Common.{
  ℕ, zero, suc, ◌+◌, ◌-◌, Bytes, bytes_eq, List, [], ◌∷◌, Bool, true, false, not, ◌&&◌, ◌||◌,
  Option, none, some, ◌==◌, ltb, any, is_empty, if◌then◌else◌, length, get_or, Result, ok, err,
  Error, remote_failure, signature_error, ◌>>=◌, ◌>>◌, bail, no_random_data, invalid_sk_format,
  sk_flags_missing,
}
use pam_ssh_agent.SshKeys.{SshKeys, Identity, public_key, certificate}
use pam_ssh_agent.Filter.Identities.{IdentityFilter, filter}

-- A point of `SystemTime` against the Unix epoch, in seconds.
pub data SystemTime : Type 0 where
  before_epoch after_epoch : ℕ → SystemTime

-- `when.duration_since(UNIX_EPOCH)`
abbrev pub duration_since_epoch : SystemTime → Option ℕ
duration_since_epoch (after_epoch seconds) = some seconds
duration_since_epoch (before_epoch seconds) = none

abbrev pub challenge_size : ℕ
challenge_size = 32

-- `e.downcast_ref::<SACError>()` is `RemoteFailure`.
abbrev pub is_remote_failure : Error → Bool
is_remote_failure remote_failure = true
is_remote_failure _ = false

-- The `match` on the outcome of one identity: `none` goes on to the next.
unfoldable pub decide_outcome : Result Bool → Option (Result Bool)
decide_outcome (ok res) = some (ok res)
decide_outcome (err e) = if is_remote_failure e then none else some (err e)

-- `return` with an outcome, `continue` without one.
unfoldable pub proceed :
    {W : Type 0} → Option (Result Bool) × W → (W → Result Bool × W) → Result Bool × W
proceed (none, w) next = next w
proceed (some outcome, w) next = (outcome, w)

module _ (C : SshKeys) where
  open C use {KeyData, Certificate, Signature}

  -- The trait `SSHAgent`: each call changes the agent.
  pub record Agent : Type 1 where
    pub State : Type 0
    pub list_identities : State → Result (List (Identity KeyData Certificate)) × State
    pub sign : State → Identity KeyData Certificate → Bytes → Result Signature × State

  -- `getrandom::fill` on a buffer of a given size.
  pub record Random : Type 1 where
    pub Source : Type 0
    pub fill : Source → ℕ → Option Bytes × Source

  -- The `match` on the identity, for its key.
  unfoldable pub subject_key : Identity KeyData Certificate → KeyData
  subject_key (public_key k) = k
  subject_key (certificate cert) = C.certified_key cert

  -- src/verify.rs
  unfoldable pub verify : KeyData → Bytes → Signature → Result (Unit {0})
  verify key_data message signature =
      if C.verifies key_data message signature then ok tt else err signature_error

  unfoldable pub expected_algorithm : KeyData → Option C.Algorithm
  expected_algorithm k =
      if C.is_sk_ed25519 k
      then some C.sk_ed25519
      else if C.is_sk_ecdsa_p256 k
      then some C.sk_ecdsa_sha2_nist_p256
      else none

  -- The tests on the signature of a security key.
  unfoldable pub check_sk_signature : C.Algorithm → Signature → Result (Unit {0})
  check_sk_signature expected signature =
      let bytes = C.as_bytes signature in
      if not (C.algorithm_eq (C.algorithm signature) expected) || ltb (length bytes) 5
      then bail invalid_sk_format
      else let flags = get_or bytes (length bytes - 5) 0 in
        if bit_and flags 0x01 == 0 || bit_and flags 0x04 == 0 then bail sk_flags_missing else ok tt

  unfoldable pub validate_sk_signature :
      Identity KeyData Certificate → Signature → Result (Unit {0})
  validate_sk_signature identity signature = elim (expected_algorithm (subject_key identity)) [
    | none ↦ ok tt
    | some expected ↦ check_sk_signature expected signature
  ]

  unfoldable pub validate_cert : Certificate → SystemTime → Bytes → Bool
  validate_cert cert when principal = elim (duration_since_epoch when) [
    | none ↦ false
    | some seconds ↦ elim (C.validate_at cert seconds (C.fingerprint (C.signature_key cert) ∷ [])) [
      | err _ ↦ false
      | ok _ ↦
          if not (C.is_user cert)
          then false
          else if not (any (λ p. bytes_eq p principal) (C.valid_principals cert))
          then false
          else if not (is_empty (C.critical_options cert))
          then false
          else true
    ]
  ]

  -- The tests that decide whether an offered identity is tried.
  unfoldable pub is_eligible :
      IdentityFilter KeyData → SystemTime → Bytes → Identity KeyData Certificate → Bool
  is_eligible f now principal (public_key k) = filter C f (public_key k)
  is_eligible f now principal (certificate cert) =
      filter C f (certificate cert) && validate_cert cert now principal

  module _ (A : Agent) (R : Random) where
    abbrev pub World : Type 0
    World = A.State × R.Source

    -- The part of `sign_and_verify` behind the agent's answer.
    unfoldable pub check_signature :
        Identity KeyData Certificate → Bool → Bytes → Result Signature → Result Bool
    check_signature identity strict challenge answer = do
      sig ← answer
      if strict then validate_sk_signature identity sig else ok tt
      verify (subject_key identity) challenge sig
      ok true

    -- `sign_and_verify` behind the drawing of the challenge.
    unfoldable pub answer_challenge :
        Identity KeyData Certificate
        → Bool
        → A.State
        → R.Source
        → Option Bytes
        → Result Bool × World
    answer_challenge identity strict agent source none = (bail no_random_data, (agent, source))
    answer_challenge identity strict agent source (some challenge) =
        let (answer, agent') = A.sign agent identity challenge in
        (check_signature identity strict challenge answer, (agent', source))

    unfoldable pub sign_and_verify :
        Identity KeyData Certificate → Bool → World → Result Bool × World
    sign_and_verify identity strict (agent, source) =
        let (drawn, source') = R.fill source challenge_size in
        answer_challenge identity strict agent source' drawn

    -- One round of the loop of `authenticate`.
    unfoldable pub attempt :
        IdentityFilter KeyData
        → SystemTime
        → Bytes
        → Identity KeyData Certificate
        → World
        → Option (Result Bool) × World
    attempt f now principal identity w =
        if is_eligible f now principal identity
        then (let (outcome, w') = sign_and_verify identity f.strict w in
            (decide_outcome outcome, w'))
        else (none, w)

    unfoldable pub try_identities :
        IdentityFilter KeyData
        → SystemTime
        → Bytes
        → List (Identity KeyData Certificate)
        → World
        → Result Bool × World
    try_identities f now principal [] w = (ok false, w)
    try_identities f now principal (identity ∷ rest) w =
        proceed (attempt f now principal identity w) (try_identities f now principal rest)

    -- `authenticate` behind the listing of the identities.
    unfoldable pub try_listed :
        IdentityFilter KeyData
        → SystemTime
        → Bytes
        → Result (List (Identity KeyData Certificate))
        → World
        → Result Bool × World
    try_listed f now principal (err e) w = (err e, w)
    try_listed f now principal (ok identities) w = try_identities f now principal identities w

    unfoldable pub authenticate :
        IdentityFilter KeyData → SystemTime → Bytes → World → Result Bool × World
    authenticate f now principal (agent, source) =
        let (listed, agent') = A.list_identities agent in
        try_listed f now principal listed (agent', source)
