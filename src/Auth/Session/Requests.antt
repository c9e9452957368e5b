-- ===== src/Auth/Session/Requests.antt =====
-- What `authenticate` asks of the agent.
use pam_ssh_agent.Common.{Bytes, List, Bool, true, Option, none, some, Result, ok, err, ◌≡◌, subst}
use pam_ssh_agent.SshKeys.{SshKeys, Identity}
use pam_ssh_agent.Filter.Identities.{IdentityFilter}
use pam_ssh_agent.Auth.{
  SystemTime, Agent, Random, World, is_eligible, answer_challenge, sign_and_verify, try_listed,
  authenticate,
}
use pam_ssh_agent.Auth.Session.{Run, exhausted, passed_over, refused, decided, try_identities-Run}

module _ (C : SshKeys) (A : Agent C) (R : Random C) (f : IdentityFilter C.KeyData)
    (now : SystemTime) (principal : Bytes) where
  open C use {KeyData, Certificate}

  module _ (P : A.State → Type 0)
      (keep : (s : A.State) (identity : Identity KeyData Certificate) (challenge : Bytes)
        → is_eligible C f now principal identity ≡ true
        → P s
        → P (A.sign s identity challenge).1) where
    answer_challenge_keeps :
        (identity : Identity KeyData Certificate) (s : A.State) (source : R.Source)
        (drawn : Option Bytes)
        → is_eligible C f now principal identity ≡ true
        → P s
        → P (answer_challenge C A R identity f.strict s source drawn).1.0
    unfolding answer_challenge
    answer_challenge_keeps identity s source none e p = p
    answer_challenge_keeps identity s source (some challenge) e p = keep s identity challenge e p

    sign_and_verify_keeps :
        (identity : Identity KeyData Certificate) (w : World C A R) {r : Result Bool}
        {w' : World C A R}
        → sign_and_verify C A R identity f.strict w ≡ (r, w')
        → is_eligible C f now principal identity ≡ true
        → P w.0
        → P w'.0
    unfolding sign_and_verify
    sign_and_verify_keeps identity w h e p =
        subst (λ q. P q.1.0) h (answer_challenge_keeps identity w.0 _ _ e p)

    -- The agent is asked to sign only for eligible identities: what each such request keeps of the
    -- agent's state holds behind the loop.
    Run_keeps :
        {identities : List (Identity KeyData Certificate)} {w w' : World C A R} {r : Result Bool}
        → Run C A R f now principal identities w r w'
        → P w.0
        → P w'.0
    Run_keeps (exhausted w) p = p
    Run_keeps (passed_over e run) p = Run_keeps run p
    Run_keeps (refused {w} e signed run) p = Run_keeps run (sign_and_verify_keeps _ w signed e p)
    Run_keeps (decided {w} e signed other) p = sign_and_verify_keeps _ w signed e p

    try_listed_keeps :
        (listed : Result (List (Identity KeyData Certificate))) (w : World C A R)
        → P w.0
        → P (try_listed C A R f now principal listed w).1.0
    unfolding try_listed
    try_listed_keeps (err e) w p = p
    try_listed_keeps (ok identities) w p =
        Run_keeps (try_identities-Run C A R f now principal identities w) p

    -- The agent is asked to sign only for eligible identities: what listing and each such request
    -- keep of the agent's state holds behind `authenticate`, whatever it returns.
    pub authenticate_keeps :
        (w : World C A R)
        → P (A.list_identities w.0).1
        → P (authenticate C A R f now principal w).1.0
    unfolding authenticate
    authenticate_keeps w p = try_listed_keeps _ _ p
