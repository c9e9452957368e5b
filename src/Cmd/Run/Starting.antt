-- ===== src/Cmd/Run/Starting.antt =====
-- How a child is started, and what its pipes are.
use Prim.Native.Nat.{bit_or}
use pam_ssh_agent.Common.{
  ℕ, Bytes, List, [], Bool, ◌==◌, Option, some, ok, >>=-eq-ok, ok_or, missing_pipe, ◌≡◌, refl,
}
use pam_ssh_agent.Cmd.Run.{
  Pipe, Spawned, System, environment, set_nonblocking, prepare_pipes, choose_gid, start, pre_exec,
}
use pam_ssh_agent.Cmd.Run.Laws.{ok_or-ok}
use pam_ssh_agent.Cmd.Run.Rights.{lowered, AllAnswered, pre_exec-Answered, pre_exec_complete}

-- How a child is started: the group, the calls by which it gives up its rights, and the program
-- with its fixed environment, in a process group of its own.
pub record IsStarted (s : System) (program : Bytes) (arguments : List Bytes) (uid : ℕ)
    (effective_gid : Option ℕ) (prevent_descendants : Bool) (spawned : Spawned) : Type 0 where
  pub gid : ℕ
  pub group : choose_gid s effective_gid ≡ ok gid
  pub answered : AllAnswered s [] (lowered prevent_descendants (s.effective_uid == 0) gid uid)
  pub exec :
      s.spawn (record {
        program = program;
        arguments = arguments;
        environment = environment;
        process_group = 0;
        calls = lowered prevent_descendants (s.effective_uid == 0) gid uid;
      })
      ≡ ok spawned

module _ (s : System) (program : Bytes) (arguments : List Bytes) (uid : ℕ)
    (effective_gid : Option ℕ) (prevent_descendants : Bool) {spawned : Spawned} where
  pub start-ok :
      start s program arguments uid effective_gid prevent_descendants ≡ ok spawned
      → IsStarted s program arguments uid effective_gid prevent_descendants spawned
  unfolding start
  start-ok h =
      let clear = s.effective_uid == 0 in
      let (gid, chosen, h') = >>=-eq-ok (choose_gid s effective_gid) _ h in
      let (calls, made, h'') = >>=-eq-ok (pre_exec s prevent_descendants clear gid uid) _ h' in
      let (answered, same) = pre_exec-Answered s prevent_descendants clear gid uid made in
      record { gid = gid; group = chosen; answered = answered; exec = rw (← same) h'' }

  pub IsStarted-start :
      IsStarted s program arguments uid effective_gid prevent_descendants spawned
      → start s program arguments uid effective_gid prevent_descendants ≡ ok spawned
  unfolding start
  IsStarted-start t =
      rw
        (
          t.group,
          pre_exec_complete s prevent_descendants (s.effective_uid == 0) t.gid uid t.answered,
        )
        t.exec

-- Both pipes are there, and their reads have been set not to block.
abbrev pub IsNonblocking : System → Pipe → Type 0
IsNonblocking s pipe =
    (flags : ℕ) × (pipe.get_flags ≡ ok flags)
    × (pipe.set_flags (bit_or flags s.nonblocking) ≡ ok tt)

pub record ArePiped (s : System) (c : Spawned) : Type 0 where
  pub stdout : Pipe
  pub has_stdout : c.stdout ≡ some stdout
  pub stderr : Pipe
  pub has_stderr : c.stderr ≡ some stderr
  pub stdout_nonblocking : IsNonblocking s stdout
  pub stderr_nonblocking : IsNonblocking s stderr

set_nonblocking-ok :
    (s : System) (pipe : Pipe) → set_nonblocking s pipe ≡ ok tt → IsNonblocking s pipe
unfolding set_nonblocking
set_nonblocking-ok s pipe h = >>=-eq-ok pipe.get_flags _ h

IsNonblocking-set_nonblocking :
    (s : System) (pipe : Pipe) → IsNonblocking s pipe → set_nonblocking s pipe ≡ ok tt
unfolding set_nonblocking
IsNonblocking-set_nonblocking s pipe (flags, got, set) = rw got set

pub prepare_pipes-ok : (s : System) (c : Spawned) → prepare_pipes s c ≡ ok tt → ArePiped s c
unfolding prepare_pipes
prepare_pipes-ok s c h =
    let (out, e, h1) = >>=-eq-ok (ok_or c.stdout missing_pipe) _ h in
    let (error, e', h2) = >>=-eq-ok (ok_or c.stderr missing_pipe) _ h1 in
    let (_, set, set') = >>=-eq-ok (set_nonblocking s out) _ h2 in
    record {
      stdout = out;
      has_stdout = ok_or-ok c.stdout missing_pipe e;
      stderr = error;
      has_stderr = ok_or-ok c.stderr missing_pipe e';
      stdout_nonblocking = set_nonblocking-ok s out set;
      stderr_nonblocking = set_nonblocking-ok s error set';
    }

pub ArePiped-prepare_pipes : (s : System) (c : Spawned) → ArePiped s c → prepare_pipes s c ≡ ok tt
unfolding prepare_pipes
ArePiped-prepare_pipes s c p =
    rw
      (
        p.has_stdout,
        p.has_stderr,
        IsNonblocking-set_nonblocking s p.stdout p.stdout_nonblocking,
        IsNonblocking-set_nonblocking s p.stderr p.stderr_nonblocking,
      )
      refl
