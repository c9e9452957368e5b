-- ===== src/Cmd/Run/Success.antt =====
-- What the success of a helper means.
use pam_ssh_agent.Common.{
  ◌↔◌, ℕ, ◌+◌, Bytes, codes, List, [], ◌∷◌, Bool, true, Option, none, some, starts_with, Result, ok,
  err, ◌≡◌, refl, ap, ◌∙◌, inl, inr, nanoseconds, Bool-cases,
}
use pam_ssh_agent.Cmd.Supervision.{Progress, supervise, started}
use pam_ssh_agent.Cmd.Supervision.Good.{IsGoodRun}
use pam_ssh_agent.Cmd.Supervision.Good.Exact.{supervise_iff}
use pam_ssh_agent.Cmd.Supervision.Ends.{IsEnded, supervise-IsEnded}
use pam_ssh_agent.Cmd.Supervision.Payload.{IsCollected, started-IsCollected}
use pam_ssh_agent.Cmd.Run.{
  Spawned, System, Outcome, prepare_pipes, conclude, conclude_supervision, follow, follow_spawn,
  start, run_inner,
}
use pam_ssh_agent.Cmd.Run.Laws.{IsConcluded, conclude-ok, IsConcluded-conclude, some_injective}
use pam_ssh_agent.Cmd.Run.Starting.{
  IsStarted, start-ok, IsStarted-start, ArePiped, prepare_pipes-ok, ArePiped-prepare_pipes,
}

-- What a helper that has run well was, and where its output comes from.
pub record IsHelperRun (s : System) (command : List Bytes) (timeout uid : ℕ)
    (effective_gid : Option ℕ) (prevent_descendants : Bool) (text : Bytes) : Type 0 where
  pub program : Bytes
  pub arguments : List Bytes
  pub written : command ≡ program ∷ arguments
  pub absolute : starts_with program (codes "/") ≡ true
  pub spawned : Spawned
  pub begun : IsStarted s program arguments uid effective_gid prevent_descendants spawned
  pub piped : ArePiped s spawned
  pub final : Progress
  pub supervised : IsGoodRun (s.now + nanoseconds timeout) spawned.rounds started final
  pub ended : IsEnded (ok tt) final
  pub read : IsCollected spawned.rounds [] final.stdout_bytes
  pub concluded : IsConcluded final text

-- A supervision that was concluded well.
record IsSupervisedRun (deadline : ℕ) (c : Spawned) (text : Bytes) : Type 0 where
  pub final : Progress
  pub supervised : supervise deadline c.rounds started ≡ some (ok tt, final)
  pub concluded : IsConcluded final text

conclude_supervision-ok :
    (deadline : ℕ) (c : Spawned) (end : Option (Result (Unit {0}) × Progress)) {o : Outcome}
    {text : Bytes}
    → supervise deadline c.rounds started ≡ end
    → conclude_supervision end ≡ some o
    → o.result ≡ ok text
    → IsSupervisedRun deadline c text
conclude_supervision-ok deadline c none same h good = absurd (cc)
conclude_supervision-ok deadline c (some (result, p)) {o} same h good =
    let shown : conclude result p ≡ o.result = ap (λ o. o.result) (some_injective _ o h) in
    let (fine, concluded) = conclude-ok result p (shown ∙ good) in
    record { final = p; supervised = same ∙ ap (λ r. some (r, p)) fine; concluded = concluded }

follow-ok :
    (deadline : ℕ) (c : Spawned) (pipes : Result (Unit {0})) {o : Outcome} {text : Bytes}
    → follow deadline c pipes ≡ some o
    → o.result ≡ ok text
    → (pipes ≡ ok tt) × IsSupervisedRun deadline c text
unfolding follow
follow-ok deadline c (err e) {o} h good = absurd (cc (ap (λ o. o.result) (some_injective _ o h)))
follow-ok deadline c (ok _) h good = (refl, conclude_supervision-ok deadline c _ refl h good)

follow_spawn-ok :
    (s : System) (deadline : ℕ) (spawned : Result Spawned) {o : Outcome} {text : Bytes}
    → follow_spawn s deadline spawned ≡ some o
    → o.result ≡ ok text
    → (c : Spawned) × (spawned ≡ ok c)
      × (prepare_pipes s c ≡ ok tt)
      × IsSupervisedRun deadline c text
unfolding follow_spawn
follow_spawn-ok s deadline (err e) {o} h good =
    absurd (cc (ap (λ o. o.result) (some_injective _ o h)))
follow_spawn-ok s deadline (ok c) h good =
    let (piped, r) = follow-ok deadline c (prepare_pipes s c) h good in (c, refl, piped, r)

pub run_inner-IsHelperRun :
    (s : System) (command : List Bytes) (timeout uid : ℕ) (effective_gid : Option ℕ)
    (prevent_descendants : Bool) {o : Outcome} {text : Bytes}
    → run_inner s command timeout uid effective_gid prevent_descendants ≡ some o
    → o.result ≡ ok text
    → IsHelperRun s command timeout uid effective_gid prevent_descendants text
unfolding run_inner
run_inner-IsHelperRun s [] timeout uid gid prevent {o} h good =
    absurd (cc (ap (λ o. o.result) (some_injective _ o h)))
run_inner-IsHelperRun s (program ∷ arguments) timeout uid gid prevent {o} h good =
    elim (Bool-cases (starts_with program (codes "/"))) [
      | inl absolute ↦
          let (c, begun, piped, r) =
            follow_spawn-ok s (s.now + nanoseconds timeout)
              (start s program arguments uid gid prevent) (rw absolute at h) good in
          record {
            program = program;
            arguments = arguments;
            written = refl;
            absolute = absolute;
            spawned = c;
            begun = start-ok s program arguments uid gid prevent begun;
            piped = prepare_pipes-ok s c piped;
            final = r.final;
            supervised =
                (supervise_iff (s.now + nanoseconds timeout) c.rounds started r.final).0
                  r.supervised;
            ended = supervise-IsEnded (s.now + nanoseconds timeout) c.rounds r.supervised;
            read = started-IsCollected (s.now + nanoseconds timeout) c.rounds r.supervised;
            concluded = r.concluded;
          }
      | inr relative ↦ absurd (cc (ap (λ o. o.result) (some_injective _ o (rw relative at h))))
    ]

IsHelperRun-run_inner :
    (s : System) (command : List Bytes) (timeout uid : ℕ) (effective_gid : Option ℕ)
    (prevent_descendants : Bool) {text : Bytes}
    → (r : IsHelperRun s command timeout uid effective_gid prevent_descendants text)
    → run_inner s command timeout uid effective_gid prevent_descendants
      ≡ some (record { result = ok text; child = some r.final.child })
unfolding run_inner follow_spawn follow
IsHelperRun-run_inner s command timeout uid gid prevent r =
    rw
      (
        r.written,
        r.absolute,
        IsStarted-start s r.program r.arguments uid gid prevent r.begun,
        ArePiped-prepare_pipes s r.spawned r.piped,
        (supervise_iff (s.now + nanoseconds timeout) r.spawned.rounds started r.final).1
            r.supervised,
        IsConcluded-conclude r.final r.concluded,
      )
      refl

-- A run has a text for its result exactly if the command is an absolute path with arguments; the
-- child is started with the fixed environment, in a group of its own, behind all calls that lower
-- its rights (no descendants where they are prevented, no further groups where the module runs as
-- root, the group and the user); both pipes are there and do not block; it is supervised to a
-- complete end and has left with the status 0; and the text is what the rounds have read of its
-- standard output, in order, without the white characters at the end, and both outputs are valid
-- UTF-8.
pub run_inner_iff :
    (s : System) (command : List Bytes) (timeout uid : ℕ) (effective_gid : Option ℕ)
    (prevent_descendants : Bool) (text : Bytes)
    → ((o : Outcome) × (run_inner s command timeout uid effective_gid prevent_descendants ≡ some o)
        × (o.result ≡ ok text))
      ↔ IsHelperRun s command timeout uid effective_gid prevent_descendants text
run_inner_iff s command timeout uid gid prevent text = (
  λ (o, h, good). run_inner-IsHelperRun s command timeout uid gid prevent {o = o} h good,
  λ r. (_, IsHelperRun-run_inner s command timeout uid gid prevent r, refl),
)
