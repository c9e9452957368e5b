-- ===== src/Cmd/Run/Laws.antt =====
-- What a run of a helper means.
use pam_ssh_agent.Common.{
  refl, Bytes, [], ◌∷◌, true, not, Option, none, some, if◌then◌else◌, trim_end, from_utf8,
  from_utf8-eq-ok, Result, ok, >>=-eq-ok, ok_injective, ◌≡◌, sym, ap, ◌∙◌, arith, ok_or, bail,
  Message, nonzero_exit, missing_status,
}
use pam_ssh_agent.Cmd.Supervision.{ExitStatus, Progress}
use pam_ssh_agent.Cmd.Run.{succeeded, check_stderr, conclude}

pub some_injective : {A : Type 0} (a b : A) → some a ≡ some b → a ≡ b
some_injective a b h = cc

-- What `conclude` has seen of a run that it takes for good.
pub record IsConcluded (final : Progress) (text : Bytes) : Type 0 where
  pub status : ExitStatus
  pub collected : final.status ≡ some status
  pub success : status.code ≡ some 0
  pub output : text ≡ trim_end final.stdout_bytes
  pub utf8 : from_utf8 final.stdout_bytes ≡ ok final.stdout_bytes
  pub stderr_utf8 : from_utf8 final.stderr_bytes ≡ ok final.stderr_bytes

succeeded-zero : (status : ExitStatus) → succeeded status ≡ true → status.code ≡ some 0
succeeded-zero status h = ground arith

pub ok_or-ok : {A : Type 0} (o : Option A) (m : Message) {a : A} → ok_or o m ≡ ok a → o ≡ some a
ok_or-ok none m h = cc
ok_or-ok (some a) m h = cc

check_stderr-ok : (bytes : Bytes) → check_stderr bytes ≡ ok tt → from_utf8 bytes ≡ ok bytes
unfolding check_stderr from_utf8
check_stderr-ok [] h = refl
check_stderr-ok (c ∷ bytes) h =
    let (read, valid, _) = >>=-eq-ok (from_utf8 (c ∷ bytes)) _ h in
    valid ∙ ap ok (sym (from_utf8-eq-ok (c ∷ bytes) valid))

check_stderr_complete : (bytes : Bytes) → from_utf8 bytes ≡ ok bytes → check_stderr bytes ≡ ok tt
unfolding check_stderr
check_stderr_complete [] h = refl
check_stderr_complete (c ∷ bytes) h = rw h refl

pub conclude-ok :
    (result : Result (Unit {0})) (final : Progress) {text : Bytes}
    → conclude result final ≡ ok text
    → (result ≡ ok tt) × IsConcluded final text
unfolding conclude
conclude-ok result final h =
    let (_, good, h1) = >>=-eq-ok result _ h in
    let (status, e, h2) = >>=-eq-ok (ok_or final.status missing_status) _ h1 in
    let (_, zero, h3) =
      >>=-eq-ok (if not (succeeded status) then bail (nonzero_exit status.code) else ok tt) _ h2 in
    let (_, quiet, h4) = >>=-eq-ok (check_stderr final.stderr_bytes) _ h3 in
    let (read, valid, h5) = >>=-eq-ok (from_utf8 final.stdout_bytes) _ h4 in
    let same = from_utf8-eq-ok final.stdout_bytes valid in
    (
      good,
      record {
        status = status;
        collected = ok_or-ok final.status missing_status e;
        success = succeeded-zero status (ground arith);
        output = sym (ok_injective _ _ h5) ∙ ap trim_end (sym same);
        utf8 = valid ∙ ap ok (sym same);
        stderr_utf8 = check_stderr-ok final.stderr_bytes quiet;
      },
    )

pub IsConcluded-conclude :
    (final : Progress) {text : Bytes} → IsConcluded final text → conclude (ok tt) final ≡ ok text
unfolding conclude
IsConcluded-conclude final {text} c =
    rw (c.collected, check_stderr_complete final.stderr_bytes c.stderr_utf8, c.utf8, c.success)
      (ap ok (sym c.output))
