-- ===== src/Cmd/Run/Ending.antt =====
-- A run ends by its deadline.
use pam_ssh_agent.Common.{
  ℕ, ◌+◌, Bytes, codes, List, [], ◌∷◌, Bool, true, Option, none, some, is_some, leb, any,
  starts_with, Result, ok, err, ◌≡◌, refl, inl, inr, nanoseconds, Bool-cases,
}
use pam_ssh_agent.Cmd.Supervision.{Progress, started}
use pam_ssh_agent.Cmd.Supervision.Deadline.{AllSettle, supervise_ends}
use pam_ssh_agent.Cmd.Run.{
  Command, Spawned, System, prepare_pipes, conclude_supervision, follow, follow_spawn, start,
  run_inner,
}
use pam_ssh_agent.Cmd.Run.Starting.{start-ok}

-- Time goes on for a child: every wait may come to the deadline, and so does the loop.
abbrev pub IsTimed : ℕ → Spawned → Type 0
IsTimed deadline c = AllSettle deadline c.rounds × (any (λ r. leb deadline r.now) c.rounds ≡ true)

conclude_some :
    (end : Option (Result (Unit {0}) × Progress))
    → is_some end ≡ true
    → is_some (conclude_supervision end) ≡ true
conclude_some none h = cc
conclude_some (some (result, p)) h = refl

follow_ends :
    (deadline : ℕ) (c : Spawned) (pipes : Result (Unit {0}))
    → IsTimed deadline c
    → is_some (follow deadline c pipes) ≡ true
unfolding follow
follow_ends deadline c (err e) timed = refl
follow_ends deadline c (ok _) (settle, late) =
    conclude_some _ (supervise_ends deadline c.rounds started settle late)

follow_spawn_ends :
    (s : System) (deadline : ℕ) (spawned : Result Spawned)
    → ((c : Spawned) → spawned ≡ ok c → IsTimed deadline c)
    → is_some (follow_spawn s deadline spawned) ≡ true
unfolding follow_spawn
follow_spawn_ends s deadline (err e) timed = refl
follow_spawn_ends s deadline (ok c) timed =
    follow_ends deadline c (prepare_pipes s c) (timed c refl)

-- Every run has a result, if time goes on for each child that the system can start: the child is not
-- waited for past the deadline.
pub run_inner_ends :
    (s : System) (command : List Bytes) (timeout uid : ℕ) (effective_gid : Option ℕ)
    (prevent_descendants : Bool)
    → ((cmd : Command) (c : Spawned) → s.spawn cmd ≡ ok c → IsTimed (s.now + nanoseconds timeout) c)
    → is_some (run_inner s command timeout uid effective_gid prevent_descendants) ≡ true
unfolding run_inner
run_inner_ends s [] timeout uid gid prevent timed = refl
run_inner_ends s (program ∷ arguments) timeout uid gid prevent timed =
    elim (Bool-cases (starts_with program (codes "/"))) [
      | inl absolute ↦
          rw (absolute, is_some)
            (follow_spawn_ends s (s.now + nanoseconds timeout)
              (start s program arguments uid gid prevent)
              (λ c begun. timed _ c (start-ok s program arguments uid gid prevent begun).exec))
      | inr relative ↦ rw (relative, is_some)
    ]
