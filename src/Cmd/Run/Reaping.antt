-- ===== src/Cmd/Run/Reaping.antt =====
-- The child behind a run.
use pam_ssh_agent.Common.{
  ℕ, ◌+◌, Bytes, codes, List, [], ◌∷◌, Bool, true, Option, none, some, starts_with, Result, ok, err,
  ◌≡◌, refl, subst, inl, inr, nanoseconds, Bool-cases,
}
use pam_ssh_agent.Cmd.Supervision.{Child, Progress, terminate_and_reap, supervise, started}
use pam_ssh_agent.Cmd.Supervision.Ends.{supervise-IsEnded}
use pam_ssh_agent.Cmd.Run.{
  Spawned, System, Outcome, prepare_pipes, conclude, conclude_supervision, follow, follow_spawn,
  start, run_inner,
}
use pam_ssh_agent.Cmd.Run.Laws.{some_injective}

-- What is left of the child behind a run.
abbrev pub IsReaped : Option Child → Type 0
IsReaped none = Unit
IsReaped (some child) = child.reaped ≡ true

conclude_supervision-IsReaped :
    (deadline : ℕ) (c : Spawned) (end : Option (Result (Unit {0}) × Progress)) {o : Outcome}
    → supervise deadline c.rounds started ≡ end
    → conclude_supervision end ≡ some o
    → IsReaped o.child
conclude_supervision-IsReaped deadline c none same h = absurd (cc)
conclude_supervision-IsReaped deadline c (some (result, p)) {o} same h =
    let shown : record { result = conclude result p; child = some p.child } ≡ o = cc in
    subst (λ o. IsReaped o.child) shown (supervise-IsEnded deadline c.rounds same).reaped

follow-IsReaped :
    (deadline : ℕ) (c : Spawned) (pipes : Result (Unit {0})) {o : Outcome}
    → follow deadline c pipes ≡ some o
    → IsReaped o.child
unfolding follow terminate_and_reap
follow-IsReaped deadline c (err e) {o} h = subst (λ o. IsReaped o.child) (some_injective _ o h) refl
follow-IsReaped deadline c (ok _) h = conclude_supervision-IsReaped deadline c _ refl h

follow_spawn-IsReaped :
    (s : System) (deadline : ℕ) (spawned : Result Spawned) {o : Outcome}
    → follow_spawn s deadline spawned ≡ some o
    → IsReaped o.child
unfolding follow_spawn
follow_spawn-IsReaped s deadline (err e) {o} h =
    subst (λ o. IsReaped o.child) (some_injective _ o h) tt
follow_spawn-IsReaped s deadline (ok c) h = follow-IsReaped deadline c (prepare_pipes s c) h

-- However a run ends, on every path of an error too, no child is left behind: there was none, or its
-- status was collected.
pub run_inner-IsReaped :
    (s : System) (command : List Bytes) (timeout uid : ℕ) (effective_gid : Option ℕ)
    (prevent_descendants : Bool) {o : Outcome}
    → run_inner s command timeout uid effective_gid prevent_descendants ≡ some o
    → IsReaped o.child
unfolding run_inner
run_inner-IsReaped s [] timeout uid gid prevent {o} h =
    subst (λ o. IsReaped o.child) (some_injective _ o h) tt
run_inner-IsReaped s (program ∷ arguments) timeout uid gid prevent {o} h =
    elim (Bool-cases (starts_with program (codes "/"))) [
      | inl absolute ↦
          follow_spawn-IsReaped s (s.now + nanoseconds timeout)
            (start s program arguments uid gid prevent) (rw absolute at h)
      | inr relative ↦ subst (λ o. IsReaped o.child) (some_injective _ o (rw relative at h)) tt
    ]
