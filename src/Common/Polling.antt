-- ===== src/Common/Polling.antt =====
-- `poll(2)` under a deadline. Times are nanoseconds of a clock that `Instant` reads.
use Prim.Native.Nat.{ℕ, ◌+◌, ◌-◌, ◌*◌, ◌/◌, ◌^◌, ◌≤◌}
use mathlib.Core.Bool.{Bool, true}
use mathlib.Core.List.{List, [], ◌∷◌}
use mathlib.Core.Logic.{inl, inr}
use mathlib.Core.Option.{Option, none, some}
use mathlib.Core.Path.{◌≡◌, refl, ap}
use native.Mathlib.Omega.{arith}
use pam_ssh_agent.Common.Results.{IoKind}
use pam_ssh_agent.Common.Lists.{any}
use pam_ssh_agent.Common.Tests.{Option-cases, is_some, ltb, if◌then◌else◌}

abbrev pub nanoseconds : ℕ → ℕ
nanoseconds seconds = seconds * 1000000000

-- `deadline.saturating_duration_since(now)`: subtraction stops at 0 here too.
abbrev pub time_left : ℕ → ℕ → ℕ
time_left deadline now = deadline - now

-- `Duration::as_millis`
abbrev pub as_millis : ℕ → ℕ
as_millis duration = duration / 1000000

abbrev pub i32_max : ℕ
i32_max = 2 ^ 31 - 1

-- `Ord::clamp`
abbrev pub clamp : ℕ → ℕ → ℕ → ℕ
clamp lo hi n = if ltb n lo then lo else if ltb hi n then hi else n

-- What a call of `poll` returns: the number of descriptors, or an error.
pub data PollResult : Type 0 where
  returned : ℕ → PollResult
  poll_failed : IoKind → PollResult

-- One round of a loop that polls: the clock before it, and the answer for a timeout in
-- milliseconds.
pub record Poll : Type 0 where
  pub now : ℕ
  pub answer : ℕ → PollResult

-- A loop over the rounds that it may come to, up to the first that ends it.
unfoldable pub first_answer : {A : Type 0} → (Poll → Option A) → List Poll → Option A
first_answer round [] = none
first_answer round (p ∷ rest) = elim (round p) [
  | some answer ↦ some answer
  | none ↦ first_answer round rest
]

-- The loop ends if a round that ends it is among those that it may come to.
pub first_answer_ends :
    {A : Type 0} (round : Poll → Option A) (late : Poll → Bool) (polls : List Poll)
    → ((p : Poll) → late p ≡ true → is_some (round p) ≡ true)
    → any late polls ≡ true
    → is_some (first_answer round polls) ≡ true
unfolding first_answer
first_answer_ends round late [] ends h = absurd (cc)
first_answer_ends round late (p ∷ rest) ends h = elim (Option-cases (round p)) [
  | inl more ↦
      rw (more, is_some)
        (first_answer_ends round late rest ends (ground (arith, ends p, ap is_some more)))
  | inr (answer, done) ↦ rw (done, is_some)
]

pub first_answer-done :
    {A : Type 0} (round : Poll → Option A) (p : Poll) (rest : List Poll) {answer : A}
    → round p ≡ some answer
    → first_answer round (p ∷ rest) ≡ some answer
unfolding first_answer
first_answer-done round p rest h = rw (h, first_answer)

pub first_answer-more :
    {A : Type 0} (round : Poll → Option A) (p : Poll) (rest : List Poll)
    → round p ≡ none
    → first_answer round (p ∷ rest) ≡ first_answer round rest
unfolding first_answer
first_answer-more round p rest h = rw (h, first_answer)

pub first_answer-nil : {A : Type 0} (round : Poll → Option A) → first_answer round [] ≡ none
unfolding first_answer
first_answer-nil round = refl

-- A timeout that is clamped to at least a millisecond and at most `hi` is one that `poll` takes,
-- and it passes the deadline by less than a millisecond.
pub clamp_millis :
    (hi left : ℕ)
    → 1 ≤ hi
    → (1 ≤ clamp 1 hi (as_millis left))
      × (clamp 1 hi (as_millis left) ≤ hi)
      × (clamp 1 hi (as_millis left) * 1000000 ≤ left + 1000000)
clamp_millis hi left h = ground arith
