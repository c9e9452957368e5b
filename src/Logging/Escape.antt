-- ===== src/Logging/Escape.antt =====
-- `escape_log_value`: what reaches the log.
use Prim.Native.Nat.{ℕ, ◌/◌, ◌%◌, ◌<◌}
use pam_ssh_agent.Common.{
  Bytes, codes, [], ◌∷◌, ◌++◌, true, false, ltb, All, All-append, ◌≡◌, inl, inr, Bool-cases, refl,
  arith,
}
use pam_ssh_agent.Logging.{is_control, hex_digit, lower_hex, escape_character, escape_log_value}

-- No control character stands in a text.
abbrev pub IsClean : Bytes → Type 0
IsClean s = All (λ c. is_control c ≡ false) s

hex_digit-clean : (d : ℕ) → d < 16 → is_control (hex_digit d) ≡ false
unfolding is_control hex_digit
hex_digit-clean d h = ground arith

control_bound : (c : ℕ) → is_control c ≡ true → c < 160
unfolding is_control
control_bound c h = ground arith

quotient_small : (c : ℕ) → c < 160 → c / 16 < 16
quotient_small c h = omega arith

remainder_small : (c : ℕ) → c % 16 < 16
remainder_small c = omega arith

lower_hex-IsClean : (c : ℕ) → is_control c ≡ true → IsClean (lower_hex c)
unfolding lower_hex
lower_hex-IsClean c h = elim (Bool-cases (ltb c 16)) [
  | inl small ↦ rw small (hex_digit-clean c (ground arith), tt)
  | inr large ↦ rw large (
    hex_digit-clean (c / 16) (quotient_small c (control_bound c h)),
    (hex_digit-clean (c % 16) (remainder_small c), tt),
  )
]

unicode_escape :
    (c : ℕ) → is_control c ≡ true → IsClean (codes "\\u{" ++ (lower_hex c ++ b'}' ∷ []))
unfolding is_control
unicode_escape c h = (
  refl,
  (
    refl,
    (
      refl,
      All-append (λ d. is_control d ≡ false) (lower_hex c) (b'}' ∷ []) (lower_hex-IsClean c h)
          (refl, tt),
    ),
  ),
)

plain_escapes :
    (is_control b'\\' ≡ false)
    × (is_control b'n' ≡ false)
    × (is_control b'r' ≡ false)
    × (is_control b't' ≡ false)
unfolding is_control
plain_escapes = (refl, refl, refl, refl)

escape_character-IsClean : (c : ℕ) → IsClean (escape_character c)
unfolding escape_character
escape_character-IsClean c = ground (arith, plain_escapes, unicode_escape c)

-- Whatever is logged, no control character reaches the log: no line can be forged.
pub escape_log_value-IsClean : (s : Bytes) → IsClean (escape_log_value s)
unfolding escape_log_value
escape_log_value-IsClean [] = tt
escape_log_value-IsClean (c ∷ s) =
    All-append (λ c. is_control c ≡ false) (escape_character c) (escape_log_value s)
      (escape_character-IsClean c) (escape_log_value-IsClean s)
