-- ===== src/Pam/Decision/Stream.antt =====
-- The stream to the agent behind a strict success, with src/agent_connection.rs for the connection.
use pam_ssh_agent.Common.{
  ℕ, ◌+◌, ◌≤◌, Bytes, List, true, Option, none, some, Result, ok, Poll, nanoseconds, ◌≡◌, ◌⊎◌, inl,
  inr, >>=-eq-ok, subst,
}
use pam_ssh_agent.Environment.{PamHandleExt}
use pam_ssh_agent.Environment.Unix.{Host, unix_environment}
use pam_ssh_agent.Args.{Args, strict_flag}
use pam_ssh_agent.Args.Outcome.{IsBounded}
use pam_ssh_agent.SshKeys.{SshKeys}
use pam_ssh_agent.Filter.Identities.{IdentityFilter}
use pam_ssh_agent.Connection.Socket.{Sockets, UnixStream}
use pam_ssh_agent.Connection.Socket.Established.{IsConnected}
use pam_ssh_agent.Connection.Deadline.{Client, with_read_write, connect}
use pam_ssh_agent.Connection.Deadline.Clients.{connect-IsConnected}
use pam_ssh_agent.Auth.{Agent, Random}
use pam_ssh_agent.Pam.{
  pam_success, PamContext, get_path, Process, State, open_agent, sm_authenticate,
}
use pam_ssh_agent.Pam.Shortcut.{IsShortcut}
use pam_ssh_agent.Pam.Answer.{IsProven}
use pam_ssh_agent.Pam.Decision.Strict.{IsStrictlyGranted, sm_authenticate-strict}

-- The system at the time of the connection: the connection of the client crate, the calls on
-- sockets, the clock, and what the wait for the connection sees.
pub record Meeting : Type 0 where
  pub client_connect : Bytes → Result (Unit {0})
  pub sockets : Sockets
  pub now : ℕ
  pub polls : List Poll

abbrev pub connect_in : Meeting → Bytes → Option ℕ → Option (Result Client)
connect_in m path timeout = connect m.client_connect m.sockets m.now path timeout m.polls

-- Agents are reached by `connect` of the system, whatever the client is taken for.
abbrev pub ConnectsIn : {S : Type 0} → (Bytes → Option ℕ → Result S) → Meeting → Type 0
ConnectsIn {S} reach m =
    (path : Bytes) (timeout : Option ℕ) (agent : S)
    → reach path timeout ≡ ok agent
    → (c : Client) × (connect_in m path timeout ≡ some (ok c))

-- A client over a stream that ends within the limits of a timeout, connected to the socket that
-- the arguments and the environment name.
pub record IsLimited (host : Host) (args : Args) (m : Meeting) : Type 0 where
  pub path : Bytes
  pub named : get_path host args ≡ ok path
  pub seconds : ℕ
  pub positive : 1 ≤ seconds
  pub bounded : seconds ≤ 300
  pub stream : UnixStream
  pub client :
      connect_in m path (some seconds)
      ≡ some (
          ok (with_read_write (record { stream = stream; deadline = m.now + nanoseconds seconds })))
  pub established : IsConnected m.sockets path (m.now + nanoseconds seconds) m.polls stream

module _ (C : SshKeys) (A : Agent C) (R : Random C) (p : Process C A R) (m : Meeting)
    (connects : ConnectsIn p.connect m) where
  open C use {KeyData}

  limited :
      (args : Args) (path : Bytes) (timeout : Option ℕ) {agent : A.State}
      → get_path p.host args ≡ ok path
      → IsBounded true timeout
      → p.connect path timeout ≡ ok agent
      → IsLimited p.host args m
  limited args path none named bounded e = absurd bounded
  limited args path (some seconds) {agent} named (positive, bounded) e =
      let (c, reached) = connects path (some seconds) agent e in
      let (stream, same, established) =
        connect-IsConnected m.client_connect m.sockets m.now path seconds m.polls reached in
      record {
        path = path;
        named = named;
        seconds = seconds;
        positive = positive;
        bounded = bounded;
        stream = stream;
        client = subst (λ c. connect_in m path (some seconds) ≡ some (ok c)) same reached;
        established = established;
      }

  open_agent-IsLimited :
      (args : Args) {agent : A.State}
      → IsBounded true args.agent_timeout
      → open_agent C A R p args ≡ ok agent
      → IsLimited p.host args m
  unfolding open_agent
  open_agent-IsLimited args bounded h =
      let (path, named, e) = >>=-eq-ok (get_path p.host args) _ h in
      limited args path args.agent_timeout named bounded e

  -- How a strict success was reached: over the shortcut, or over a limited stream.
  abbrev pub IsReached : Args → PamContext → IdentityFilter KeyData → Type 0
  IsReached args context f =
      ((args.sshd_shortcut ≡ true) × IsShortcut C f (unix_environment p.host) context.service)
      ⊎ IsLimited p.host args m

  proven-IsReached :
      (args : Args) (context : PamContext) (f : IdentityFilter KeyData) (source : R.Source)
      → IsBounded true args.agent_timeout
      → IsProven C A R p args context f source
      → IsReached args context f
  proven-IsReached args context f source bounded (inl s) = inl s
  proven-IsReached args context f source bounded (inr (_, a)) =
      inr (open_agent-IsLimited args bounded a.connected)

  -- If agents are reached as src/agent_connection.rs reaches them, `strict` is among the arguments
  -- and `sm_authenticate` returns PAM_SUCCESS, then the call is granted by the rules of strict mode,
  -- and either the enabled sshd shortcut applies, or the agent was asked over a stream to the named
  -- socket with a deadline 1 to 300 seconds away, under which it was connected.
  pub sm_authenticate-stream :
      (arguments : List Bytes) (handle : PamHandleExt) (state : State C A R)
      → strict_flag arguments ≡ true
      → (sm_authenticate C A R p arguments handle state).0 ≡ pam_success
      → (g : IsStrictlyGranted C A R p arguments handle state) × IsReached g.granted.args
          g.granted.context g.granted.f
  sm_authenticate-stream arguments handle state flag h =
      let g = sm_authenticate-strict C A R p arguments handle state flag h in
      (
        g,
        proven-IsReached g.granted.args g.granted.context g.granted.f state.source g.deadline
            g.granted.proven,
      )
