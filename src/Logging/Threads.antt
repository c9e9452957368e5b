-- ===== src/Logging/Threads.antt =====
-- src/logging.rs: `init_logging` and `init_impl` by several threads of one process, which share
-- `LOG_LOCK` and the logger of the crate log. A step is one access to what they share. Nobody else
-- sets the logger.
pub mod Invariant
use mathlib.Core.Logic.{ite}
use native.Mathlib.Decide.{ℕ_discrete}
use pam_ssh_agent.Common.{ℕ, Bool, true, false, Option, none, some, Result, ok, err, Error, ◌≡◌}

-- The crate log, as far as it is used: its logger can be set while there is none, and the level
-- leaves it as it is. The level is part of the state.
pub record LogCrate : Type 1 where
  pub State : Type 0
  pub empty : State
  pub is_set : State → Bool
  pub set_boxed_logger : State → Result (Unit {0}) × State
  pub set_max_level : State → State
  pub is_set-empty : is_set empty ≡ false
  pub first_set :
      (s : State)
      → is_set s ≡ false
      → ((set_boxed_logger s).0 ≡ ok tt) × (is_set (set_boxed_logger s).1 ≡ true)
  pub is_set-set_max_level : (s : State) → is_set (set_max_level s) ≡ is_set s

abbrev pub update {ℓ} : {A : Type ℓ} → (ℕ → A) → ℕ → A → ℕ → A
update f i a j = ite (ℕ_discrete i j) a (f j)

-- Where a thread stands in `init_logging`: outside, behind the lock, behind the connection to
-- syslog, or behind `init_impl`.
pub data Pc : Type 0 where
  outside locked connected registered : Pc

module _ (L : LogCrate) where
  -- The lock's owner, its flag, and the logger.
  pub record Shared : Type 0 where
    pub owner : Option ℕ
    pub initialised : Bool
    pub log : L.State

  -- The steps of a thread. The connection may fail, and the thread may panic behind it: then the
  -- next one takes the poisoned lock over (`into_inner`), with its flag as it was.
  pub data Move (i : ℕ) (m : Shared) : Pc → Shared → Pc → Type 0 where
    lock : m.owner ≡ none → Move i m outside (record m { owner = some i }) locked
    return_early : m.initialised ≡ true → Move i m locked (record m { owner = none }) outside
    connect : m.initialised ≡ false → Move i m locked m connected
    fail : m.initialised ≡ false → Move i m locked (record m { owner = none }) outside
    panic : Move i m connected (record m { owner = none }) outside
    register :
        (L.set_boxed_logger m.log).0 ≡ ok tt
        → Move i m connected
            (record m { log = L.set_max_level (L.set_boxed_logger m.log).1 })
            registered
    refuse :
        {e : Error}
        → (L.set_boxed_logger m.log).0 ≡ err e
        → Move i m connected (record m { owner = none; log = (L.set_boxed_logger m.log).1 }) outside
    unlock : Move i m registered (record m { owner = none; initialised = true }) outside

  pub record System : Type 0 where
    pub shared : Shared
    pub pc : ℕ → Pc

  pub data Step (s : System) : System → Type 0 where
    pick :
        (i : ℕ) {m : Shared} {p : Pc}
        → Move i s.shared (s.pc i) m p
        → Step s (record { shared = m; pc = update s.pc i p })

  abbrev pub unlogged : System
  unlogged = record {
    shared = record { owner = none; initialised = false; log = L.empty };
    pc = λ _. outside;
  }

  pub data Reach : System → Type 0 where
    start : Reach unlogged
    later : {s t : System} → Reach s → Step s t → Reach t
