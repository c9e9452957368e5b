-- ===== src/Logging/Threads/Invariant.antt =====
-- What holds of the threads in `init_logging`, whatever their order.
use mathlib.Core.Logic.{ite}
use native.Mathlib.Decide.{ℕ_discrete}
use pam_ssh_agent.Common.{
  ℕ, true, false, Option, none, some, ok, ◌≡◌, ◌≢◌, ◌⊎◌, inl, inr, refl, sym, ◌∙◌, subst,
}
use pam_ssh_agent.Logging.Threads.{
  LogCrate, update, Pc, outside, locked, connected, registered, Shared, Move, lock, return_early,
  connect, fail, panic, register, refuse, unlock, System, pick, unlogged, Reach, start, later,
}

module _ (L : LogCrate) where
  -- What a thread at a place knows of what is shared.
  abbrev Knows : Shared L → Pc → Type 0
  Knows m outside = Unit
  Knows m locked = m.initialised ≡ L.is_set m.log
  Knows m connected = (m.initialised ≡ false) × (L.is_set m.log ≡ false)
  Knows m registered = L.is_set m.log ≡ true

  -- Only the owner of the lock is inside, and it knows what holds; without an owner the flag says
  -- whether the logger is set.
  pub record Inv (m : Shared L) (pc : ℕ → Pc) : Type 0 where
    pub owned : (i : ℕ) → pc i ≢ outside → m.owner ≡ some i
    pub known : (i : ℕ) → Knows m (pc i)
    pub settled : m.owner ≡ none → m.initialised ≡ L.is_set m.log

  Inv-unlogged : Inv (unlogged L).shared (unlogged L).pc
  Inv-unlogged = record {
    owned = λ i h. absurd (h refl);
    known = λ i. tt;
    settled = λ _. sym L.is_set-empty;
  }

  outside-cases : (p : Pc) → (p ≡ outside) ⊎ (p ≢ outside)
  outside-cases outside = inl refl
  outside-cases locked = inr (λ h. cc)
  outside-cases connected = inr (λ h. cc)
  outside-cases registered = inr (λ h. cc)

  -- All others are outside.
  abbrev Alone : ℕ → (ℕ → Pc) → Type 0
  Alone i pc = (j : ℕ) → i ≢ j → pc j ≡ outside

  Alone-owner :
      (i : ℕ) (m : Shared L) (pc : ℕ → Pc)
      → Inv m pc
      → (m.owner ≡ none) ⊎ (m.owner ≡ some i)
      → Alone i pc
  Alone-owner i m pc inv owner j other = elim (outside-cases (pc j)) [
    | inl h ↦ h
    | inr h ↦ absurd (other (same (inv.owned j h) owner))
  ]
    where
      same : {j : ℕ} → m.owner ≡ some j → (m.owner ≡ none) ⊎ (m.owner ≡ some i) → i ≡ j
      same e (inl nobody) = absurd (cc)
      same e (inr mine) = cc

  -- A thread that is alone moves: what it leaves behind is all that is to be shown.
  Inv-update :
      (i : ℕ) (m : Shared L) (pc : ℕ → Pc) (p : Pc)
      → Alone i pc
      → (p ≢ outside → m.owner ≡ some i)
      → Knows m p
      → (m.owner ≡ none → m.initialised ≡ L.is_set m.log)
      → Inv m (update pc i p)
  Inv-update i m pc p alone owned known settled = record {
    owned = λ j. elim (ℕ_discrete i j) as (λ d. ite d p (pc j) ≢ outside → m.owner ≡ some j) [
      | yes e ↦ λ h. subst (λ k. m.owner ≡ some k) e (owned h)
      | no other ↦ λ h. absurd (h (alone j other))
    ];
    known = λ j. elim (ℕ_discrete i j) as (λ d. Knows m (ite d p (pc j))) [
      | yes e ↦ known
      | no other ↦ subst (Knows m) (sym (alone j other)) tt
    ];
    settled = settled;
  }

  -- A thread gives the lock back and changes nothing else.
  left :
      (i : ℕ) (m : Shared L) (pc : ℕ → Pc) {p : Pc}
      → Inv m pc
      → pc i ≡ p
      → p ≢ outside
      → (◌≡◌ {A = Option ℕ} none none → m.initialised ≡ L.is_set m.log)
      → Inv (record m { owner = none }) (update pc i outside)
  left i m pc inv e inside settled =
      Inv-update i _ pc outside
        (Alone-owner i m pc inv (inr (inv.owned i (λ h. inside (sym e ∙ h)))))
        (λ h. absurd (h refl)) tt settled

  Move-Inv :
      (i : ℕ) {m m' : Shared L} {p p' : Pc}
      → Move L i m p m' p'
      → (pc : ℕ → Pc) → pc i ≡ p
      → Inv m pc
      → Inv m' (update pc i p')
  Move-Inv i {m} (lock free) pc e inv =
      Inv-update i _ pc locked (Alone-owner i m pc inv (inl free)) (λ _. refl) (inv.settled free)
        (λ h. cc)
  Move-Inv i {m} (return_early done) pc e inv =
      left i m pc inv e (λ h. cc) (λ _. subst (Knows m) e (inv.known i))
  Move-Inv i {m} (fail not_done) pc e inv =
      left i m pc inv e (λ h. cc) (λ _. subst (Knows m) e (inv.known i))
  Move-Inv i {m} (panic) pc e inv =
      let (not_done, not_set) = subst (Knows m) e (inv.known i) in
      left i m pc inv e (λ h. cc) (λ _. not_done ∙ sym not_set)
  Move-Inv i {m} (connect not_done) pc e inv =
      let mine = inv.owned i (λ h. cc) in
      Inv-update i m pc connected (Alone-owner i m pc inv (inr mine)) (λ _. mine)
        (not_done, sym (subst (Knows m) e (inv.known i)) ∙ not_done) (λ h. cc)
  Move-Inv i {m} (register good) pc e inv =
      let mine = inv.owned i (λ h. cc) in
      let (not_done, not_set) = subst (Knows m) e (inv.known i) in
      Inv-update i _ pc registered (Alone-owner i m pc inv (inr mine)) (λ _. mine)
        (L.is_set-set_max_level _ ∙ (L.first_set m.log not_set).1) (λ h. cc)
  Move-Inv i {m} (refuse bad) pc e inv =
      let (not_done, not_set) = subst (Knows m) e (inv.known i) in
      absurd (cc ((L.first_set m.log not_set).0))
  Move-Inv i {m} (unlock) pc e inv =
      let set = subst (Knows m) e (inv.known i) in
      Inv-update i _ pc outside (Alone-owner i m pc inv (inr (inv.owned i (λ h. cc))))
        (λ h. absurd (h refl)) tt (λ _. sym set)

  pub Reach-Inv : {s : System L} → Reach L s → Inv s.shared s.pc
  Reach-Inv start = Inv-unlogged
  Reach-Inv (later {s} r (pick i mv)) = Move-Inv i mv s.pc refl (Reach-Inv r)

  -- Over all interleavings of the threads: no two are inside the lock at once; a thread that is
  -- about to set the logger is never refused; and while the lock is free, the flag says exactly
  -- whether the logger is set, so that a call that returns early has a logger.
  pub init_logging_once :
      {s : System L}
      → Reach L s
      → ((i j : ℕ) → s.pc i ≢ outside → s.pc j ≢ outside → i ≡ j)
        × ((i : ℕ) → s.pc i ≡ connected → (L.set_boxed_logger s.shared.log).0 ≡ ok tt)
        × (s.shared.owner ≡ none → s.shared.initialised ≡ L.is_set s.shared.log)
  init_logging_once {s} r =
      let inv = Reach-Inv r in
      (
        λ i j hi hj. cc (inv.owned i hi, inv.owned j hj),
        λ i e. (L.first_set s.shared.log (subst (Knows s.shared) e (inv.known i)).1).0,
        inv.settled,
      )
