-- ===== src/Common/Trim.antt =====
-- `str::trim_end`: a text without the characters of Unicode's White_Space at its end. Texts are
-- valid UTF-8, so a character is known by its bytes from the first one on.
use Prim.Native.Nat.{ℕ}
use mathlib.Core.Bool.{Bool, true, false, ◌&&◌, ◌||◌}
use mathlib.Core.List.{[], ◌∷◌, ◌++◌}
use mathlib.Core.Path.{◌≡◌, refl, ap}
use pam_ssh_agent.Common.Tests.{◌==◌, leb, if◌then◌else◌, Bool-cases}
use mathlib.Core.Logic.{inl, inr}
use pam_ssh_agent.Common.Text.{Bytes}

-- What has been read of a white character.
pub data Partly : Type 0 where
  between after_c2 after_e1 after_e1_9a after_e2 after_e2_80 after_e2_81 after_e3 after_e3_80 :
      Partly
  -- no white character begins like this
  other : Partly

-- U+0085, U+00A0, U+1680, U+2000 to U+200A, U+2028, U+2029, U+202F, U+205F and U+3000, besides
-- the blanks of ASCII.
read_white : Partly → ℕ → Partly
read_white between c =
    if (leb 0x09 c && leb c 0x0d) || c == 0x20
    then between
    else if c == 0xc2
    then after_c2
    else if c == 0xe1
    then after_e1
    else if c == 0xe2
    then after_e2
    else if c == 0xe3
    then after_e3
    else other
read_white after_c2 c = if c == 0x85 || c == 0xa0 then between else other
read_white after_e1 c = if c == 0x9a then after_e1_9a else other
read_white after_e1_9a c = if c == 0x80 then between else other
read_white after_e2 c = if c == 0x80 then after_e2_80 else if c == 0x81 then after_e2_81 else other
read_white after_e2_80 c =
    if (leb 0x80 c && leb c 0x8a) || c == 0xa8 || c == 0xa9 || c == 0xaf then between else other
read_white after_e2_81 c = if c == 0x9f then between else other
read_white after_e3 c = if c == 0x80 then after_e3_80 else other
read_white after_e3_80 c = if c == 0x80 then between else other
read_white other c = other

all_white : Partly → Bytes → Bool
unfolding read_white
all_white between [] = true
all_white _ [] = false
all_white read (c ∷ s) = all_white (read_white read c) s

-- A text of white characters only.
unfoldable pub is_white : Bytes → Bool
unfolding all_white
is_white s = all_white between s

unfoldable pub trim_end : Bytes → Bytes
trim_end [] = []
trim_end (c ∷ s) = if is_white (c ∷ s) then [] else c ∷ trim_end s

-- Only white characters are taken off, and only at the end.
pub trim_end-is_white :
    (s : Bytes) → (white : Bytes) × (s ≡ trim_end s ++ white) × (is_white white ≡ true)
unfolding trim_end
trim_end-is_white [] = ([], refl, unfold is_white in refl)
trim_end-is_white (c ∷ s) = elim (Bool-cases (is_white (c ∷ s))) [
  | inl white ↦ (c ∷ s, rw white refl, white)
  | inr more ↦
      let (white, cut, all) = trim_end-is_white s in (white, rw more (ap (λ t. c ∷ t) cut), all)
]
