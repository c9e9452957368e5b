-- ===== src/Common/Utf8.antt =====
-- `std::str::from_utf8`, by the table of well-formed byte sequences (Unicode 15, table 3-7).
use Prim.Native.Nat.{ℕ}
use mathlib.Core.Bool.{Bool, true, false, ◌&&◌}
use mathlib.Core.List.{[], ◌∷◌}
use mathlib.Core.Path.{◌≡◌, refl}
use native.Mathlib.Omega.{arith}
use pam_ssh_agent.Common.Lists.{All}
use pam_ssh_agent.Common.Results.{Result, ok, err, utf8_error}
use pam_ssh_agent.Common.Tests.{◌==◌, ltb, leb, if◌then◌else◌}
use pam_ssh_agent.Common.Text.{Bytes}

abbrev within : ℕ → ℕ → ℕ → Bool
within lo hi c = leb lo c && leb c hi

abbrev continuation : ℕ → Bool
continuation = within 0x80 0xbf

-- The range of the second byte of a sequence of three, and of four.
second_of_three : ℕ → ℕ → Bool
second_of_three lead =
    within (if lead == 0xe0 then 0xa0 else 0x80) (if lead == 0xed then 0x9f else 0xbf)

second_of_four : ℕ → ℕ → Bool
second_of_four lead =
    within (if lead == 0xf0 then 0x90 else 0x80) (if lead == 0xf4 then 0x8f else 0xbf)

-- What a character still needs: a state for each byte within a sequence.
pub data Pending : Type 0 where
  start last_byte last_two : Pending
  after_three after_four : ℕ → Pending

next : Pending → ℕ → Bool × Pending
unfolding second_of_three second_of_four
next start c =
    if ltb c 0x80
    then (true, start)
    else if within 0xc2 0xdf c
    then (true, last_byte)
    else if within 0xe0 0xef c
    then (true, after_three c)
    else (within 0xf0 0xf4 c, after_four c)
next last_byte c = (continuation c, start)
next last_two c = (continuation c, last_byte)
next (after_three lead) c = (second_of_three lead c, last_byte)
next (after_four lead) c = (second_of_four lead c, last_two)

abbrev complete : Pending → Bool
complete start = true
complete _ = false

scan : Pending → Bytes → Bool
unfolding next
scan p [] = complete p
scan p (c ∷ s) = let (good, q) = next p c in good && scan q s

pub valid_utf8 : Bytes → Bool
unfolding scan
valid_utf8 = scan start

unfoldable pub from_utf8 : Bytes → Result Bytes
unfolding valid_utf8
from_utf8 s = if valid_utf8 s then ok s else err utf8_error

-- ASCII is valid.
pub valid_utf8-ascii : (s : Bytes) → All (λ c. ltb c 0x80 ≡ true) s → valid_utf8 s ≡ true
unfolding valid_utf8
valid_utf8-ascii [] h = refl
valid_utf8-ascii (c ∷ s) h = ground (arith, valid_utf8-ascii s h.1)

pub from_utf8-eq-ok : (s : Bytes) {t : Bytes} → from_utf8 s ≡ ok t → s ≡ t
unfolding from_utf8
from_utf8-eq-ok s h = ground arith
