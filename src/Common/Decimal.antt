-- ===== src/Common/Decimal.antt =====
-- `u32::to_string` and `str::parse::<u64>`.
use Prim.Native.Nat.{ℕ, ◌≤◌, ◌<◌, zero, suc, ◌+◌, ◌-◌, ◌*◌, ◌/◌, ◌%◌, ◌^◌}
use mathlib.Core.Bool.{◌&&◌}
use mathlib.Core.List.{[], ◌∷◌}
use mathlib.Core.Logic.{◌≢◌, inl, inr}
use mathlib.Core.Path.{◌≡◌, refl, sym, ap, ◌∙◌, subst}
use native.Mathlib.Omega.{arith}
use pam_ssh_agent.Common.Lists.{All}
use pam_ssh_agent.Common.Results.{Result, ok, err, parse_int_error}
use pam_ssh_agent.Common.Tests.{Bool-cases, ◌==◌, ltb, leb, if◌then◌else◌}
use pam_ssh_agent.Common.Text.{Bytes}

abbrev pub u64_max : ℕ
u64_max = 2 ^ 64 - 1

-- The digits of `n` in front of `out`. Twenty rounds print every u64.
print_digits : ℕ → ℕ → Bytes → Bytes
print_digits zero n out = out
print_digits (suc rounds) n out =
    let more = print_digits rounds (n / 10) ((b'0' + n % 10) ∷ out) in
    if ltb n 10 then (b'0' + n) ∷ out else more

unfoldable pub to_string : ℕ → Bytes
unfolding print_digits
to_string n = print_digits 20 n []

-- The digits are accumulated with checked multiplication and addition.
parse_digits : Bytes → ℕ → Result ℕ
parse_digits [] n = ok n
parse_digits (c ∷ s) n =
    if leb b'0' c && leb c b'9' && leb (n * 10 + (c - b'0')) u64_max
    then parse_digits s (n * 10 + (c - b'0'))
    else err parse_int_error

-- An empty text and a lone sign are errors; a leading `+` is accepted.
parse_unsigned : Bytes → Result ℕ
unfolding parse_digits
parse_unsigned [] = err parse_int_error
parse_unsigned (c ∷ s) = parse_digits (c ∷ s) 0

unfoldable pub parse_u64 : Bytes → Result ℕ
unfolding parse_unsigned
parse_u64 [] = err parse_int_error
parse_u64 (c ∷ s) = if c == b'+' then parse_unsigned s else parse_digits (c ∷ s) 0

-- A decimal digit.
abbrev pub IsDigit : ℕ → Type 0
IsDigit c = (b'0' ≤ c) × (c ≤ b'9')

parse_digits-cons :
    (c : ℕ) (s : Bytes) (n : ℕ)
    → IsDigit c
    → n * 10 + (c - b'0') ≤ u64_max
    → parse_digits (c ∷ s) n ≡ parse_digits s (n * 10 + (c - b'0'))
unfolding parse_digits
parse_digits-cons c s n (low, high) h = ground arith

print_digits-one :
    (rounds n : ℕ) (out : Bytes) → n < 10 → print_digits (suc rounds) n out ≡ (b'0' + n) ∷ out
unfolding print_digits
print_digits-one rounds n out h = ground arith

print_digits-more :
    (rounds n : ℕ) (out : Bytes)
    → 10 ≤ n
    → print_digits (suc rounds) n out ≡ print_digits rounds (n / 10) ((b'0' + n % 10) ∷ out)
unfolding print_digits
print_digits-more rounds n out h = ground arith

parse_digits-next :
    (n : ℕ) (out : Bytes)
    → n ≤ u64_max
    → parse_digits ((b'0' + n % 10) ∷ out) (n / 10) ≡ parse_digits out n
parse_digits-next n out h =
    let same : n / 10 * 10 + (b'0' + n % 10 - b'0') ≡ n = omega arith in
    parse_digits-cons (b'0' + n % 10) out (n / 10) (omega arith, omega arith)
      (subst (λ m. m ≤ u64_max) (sym same) h)
    ∙ ap (parse_digits out) same

parse_digits-first :
    (n : ℕ) (out : Bytes) → n < 10 → parse_digits ((b'0' + n) ∷ out) 0 ≡ parse_digits out n
parse_digits-first n out h =
    parse_digits-cons (b'0' + n) out 0 (omega arith, omega arith) (omega arith)
    ∙ ap (parse_digits out) (omega arith)

-- What is printed is read as the number, before whatever stands behind it.
print_digits-parse :
    (rounds n : ℕ) (out : Bytes)
    → n < 10 ^ suc rounds
    → n ≤ u64_max
    → parse_digits (print_digits (suc rounds) n out) 0 ≡ parse_digits out n
print_digits-parse zero n out small bounded =
    ap (λ s. parse_digits s 0) (print_digits-one zero n out (omega arith))
    ∙ parse_digits-first n out (omega arith)
print_digits-parse (suc rounds) n out small bounded = elim (Bool-cases (ltb n 10)) [
  | inl one ↦
      ap (λ s. parse_digits s 0) (print_digits-one (suc rounds) n out (ground arith))
      ∙ parse_digits-first n out (ground arith)
  | inr more ↦
      ap (λ s. parse_digits s 0) (print_digits-more (suc rounds) n out (ground arith))
      ∙ print_digits-parse rounds (n / 10) ((b'0' + n % 10) ∷ out) (fewer rounds n small)
          (omega arith)
      ∙ parse_digits-next n out bounded
]
  where
    fewer : (rounds n : ℕ) → n < 10 ^ suc (suc rounds) → n / 10 < 10 ^ suc rounds
    fewer rounds n h = omega arith

print_digits-digits :
    (rounds n : ℕ) (out : Bytes) → All IsDigit out → All IsDigit (print_digits rounds n out)
unfolding print_digits
print_digits-digits zero n out h = h
print_digits-digits (suc rounds) n out h = elim (Bool-cases (ltb n 10)) [
  | inl one ↦ rw one ((omega arith, ground arith), h)
  | inr more ↦
      rw more (
        print_digits-digits rounds (n / 10) ((b'0' + n % 10) ∷ out) ((omega arith, omega arith), h))
]

parse_u64-digits : (s : Bytes) → All IsDigit s → s ≢ [] → parse_u64 s ≡ parse_digits s 0
unfolding parse_u64
parse_u64-digits [] h some_digit = absurd (some_digit refl)
parse_u64-digits (c ∷ s) ((low, high), h) some_digit = ground arith

print_digits-ne : (rounds n c : ℕ) (out : Bytes) → print_digits rounds n (c ∷ out) ≢ []
unfolding print_digits
print_digits-ne zero n c out h = cc
print_digits-ne (suc rounds) n c out h = elim (Bool-cases (ltb n 10)) [
  | inl one ↦ cc (rw one at h)
  | inr more ↦ print_digits-ne rounds (n / 10) (b'0' + n % 10) (c ∷ out) (rw more at h)
]

to_string-ne : (n : ℕ) → to_string n ≢ []
unfolding to_string
to_string-ne n h = elim (Bool-cases (ltb n 10)) [
  | inl one ↦ cc (print_digits-one 19 n [] (ground arith))
  | inr more ↦
      print_digits-ne 19 (n / 10) (b'0' + n % 10) []
        (sym (print_digits-more 19 n [] (ground arith)) ∙ h)
]

-- A decimal number has digits only.
pub to_string-digits : (n : ℕ) → All IsDigit (to_string n)
unfolding to_string
to_string-digits n = print_digits-digits 20 n [] tt

-- A decimal number that is printed is read back, whatever `u64` it is.
pub parse_u64-to_string : (n : ℕ) → n ≤ u64_max → parse_u64 (to_string n) ≡ ok n
unfolding to_string parse_digits
parse_u64-to_string n h =
    parse_u64-digits (to_string n) (to_string-digits n) (to_string-ne n)
    ∙ print_digits-parse 19 n [] (omega arith) h
