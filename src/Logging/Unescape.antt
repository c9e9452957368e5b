-- ===== src/Logging/Unescape.antt =====
-- The escaping of messages loses nothing: a reader of the log can undo it.
use Prim.Native.Nat.{ℕ, ◌+◌, ◌-◌, ◌*◌, ◌/◌, ◌%◌, ◌<◌}
use pam_ssh_agent.Common.{
  Bytes, codes, [], ◌∷◌, ◌++◌, append_assoc, true, false, ◌&&◌, Option, none, some, ◌==◌, ltb, leb,
  if◌then◌else◌, Bool-cases, ◌≡◌, inl, inr, refl, sym, ap, ◌∙◌, arith,
}
use pam_ssh_agent.Logging.{is_control, hex_digit, lower_hex, escape_character, escape_log_value}

-- What has been read of a character: nothing, a backslash, `\u`, or `\u{` and the digits of a number.
pub data Reading : Type 0 where
  plain escaped opening : Reading
  digits : ℕ → Reading

hex_value : ℕ → Option ℕ
hex_value c =
    if leb b'0' c && leb c b'9'
    then some (c - b'0')
    else if leb b'a' c && leb c b'f'
    then some (c - b'a' + 10)
    else none

-- One character of the log: the next state, and the character of the message that it completes.
read_character : Reading → ℕ → Option (Reading × Option ℕ)
unfolding hex_value
read_character plain c = if c == b'\\' then some (escaped, none) else some (plain, some c)
read_character escaped c =
    if c == b'\\'
    then some (plain, some b'\\')
    else if c == b'n'
    then some (plain, some b'\n')
    else if c == b'r'
    then some (plain, some b'\r')
    else if c == b't'
    then some (plain, some b'\t')
    else if c == b'u'
    then some (opening, none)
    else none
read_character opening c = if c == b'{' then some (digits 0, none) else none
read_character (digits n) c =
    if c == b'}'
    then some (plain, some n)
    else elim (hex_value c) [ some d ↦ some (digits (n * 16 + d), none) | none ↦ none ]

abbrev emit : Option ℕ → Option Bytes → Option Bytes
emit none rest = rest
emit (some c) none = none
emit (some c) (some s) = some (c ∷ s)

read_all : Reading → Bytes → Option Bytes
read_all plain [] = some []
read_all _ [] = none
read_all state (c ∷ s) = elim (read_character state c) [
  | none ↦ none
  | some (next, out) ↦ emit out (read_all next s)
]

pub unescape : Bytes → Option Bytes
unfolding read_all read_character
unescape s = read_all plain s

read_step :
    (state : Reading) (c : ℕ) (s : Bytes) {next : Reading} {out : Option ℕ}
    → read_character state c ≡ some (next, out)
    → read_all state (c ∷ s) ≡ emit out (read_all next s)
unfolding read_all
read_step plain c s h = rw (read_all, h) refl
read_step escaped c s h = rw (read_all, h) refl
read_step opening c s h = rw (read_all, h) refl
read_step (digits n) c s h = rw (read_all, h) refl

hex_value-hex_digit : (d : ℕ) → d < 16 → hex_value (hex_digit d) ≡ some d
unfolding hex_value hex_digit
hex_value-hex_digit d h = ground arith

hex_digit-ne-brace : (d : ℕ) → d < 16 → (hex_digit d == b'}') ≡ false
unfolding hex_digit
hex_digit-ne-brace d h = ground arith

digit :
    (n d : ℕ) → d < 16 → read_character (digits n) (hex_digit d) ≡ some (digits (n * 16 + d), none)
unfolding read_character
digit n d h = rw (hex_digit-ne-brace d h, hex_value-hex_digit d h) refl

read_digit :
    (n d : ℕ) (s : Bytes)
    → d < 16
    → read_all (digits n) (hex_digit d ∷ s) ≡ read_all (digits (n * 16 + d)) s
read_digit n d s h = read_step (digits n) (hex_digit d) s (digit n d h)

read_brace : (n : ℕ) (s : Bytes) → read_all (digits n) (b'}' ∷ s) ≡ emit (some n) (read_all plain s)
unfolding read_character
read_brace n s = read_step (digits n) b'}' s refl

one_digit : (c : ℕ) → 0 * 16 + c ≡ c
one_digit c = omega arith

quotient_remainder : (c : ℕ) → (0 * 16 + c / 16) * 16 + c % 16 ≡ c
quotient_remainder c = omega arith

read_lower_hex :
    (c : ℕ) (s : Bytes)
    → c < 160
    → read_all (digits 0) (lower_hex c ++ b'}' ∷ s) ≡ emit (some c) (read_all plain s)
unfolding lower_hex
read_lower_hex c s h = elim (Bool-cases (ltb c 16)) [
  | inl small ↦ rw small (
      read_digit 0 c (b'}' ∷ s) (ground arith)
      ∙ ap (λ n. read_all (digits n) (b'}' ∷ s)) (one_digit c)
      ∙ read_brace c s)
  | inr large ↦ rw large (
      read_digit 0 (c / 16) (hex_digit (c % 16) ∷ b'}' ∷ s) (omega arith)
      ∙ read_digit (0 * 16 + c / 16) (c % 16) (b'}' ∷ s) (omega arith)
      ∙ ap (λ n. read_all (digits n) (b'}' ∷ s)) (quotient_remainder c)
      ∙ read_brace c s)
]

read_prefix : (s : Bytes) → read_all plain (codes "\\u{" ++ s) ≡ read_all (digits 0) s
unfolding read_character
read_prefix s =
    read_step plain b'\\' (codes "u{" ++ s) refl
    ∙ read_step escaped b'u' (b'{' ∷ s) refl
    ∙ read_step opening b'{' s refl

control_bound : (c : ℕ) → is_control c ≡ true → c < 160
unfolding is_control
control_bound c h = ground arith

read_control :
    (c : ℕ) (s : Bytes)
    → is_control c ≡ true
    → read_all plain ((codes "\\u{" ++ (lower_hex c ++ b'}' ∷ [])) ++ s)
      ≡ emit (some c) (read_all plain s)
read_control c s h =
    ap (λ t. read_all plain (codes "\\u{" ++ t)) (append_assoc (lower_hex c) (b'}' ∷ []) s)
    ∙ read_prefix (lower_hex c ++ b'}' ∷ s)
    ∙ read_lower_hex c s (control_bound c h)

read_pair :
    (e c : ℕ) (s : Bytes)
    → read_character escaped e ≡ some (plain, some c)
    → read_all plain (b'\\' ∷ e ∷ s) ≡ emit (some c) (read_all plain s)
unfolding read_character
read_pair e c s h = read_step plain b'\\' (e ∷ s) refl ∙ read_step escaped e s h

plain_step : (c : ℕ) → (c == b'\\') ≡ false → read_character plain c ≡ some (plain, some c)
unfolding read_character
plain_step c h = rw h refl

read_plain :
    (c : ℕ) (s : Bytes)
    → (c == b'\\') ≡ false
    → read_all plain (c ∷ s) ≡ emit (some c) (read_all plain s)
unfolding read_character
read_plain c s h = read_step plain c s (plain_step c h)

read_known :
    (c k e : ℕ) (s : Bytes)
    → (c == k) ≡ true
    → read_character escaped e ≡ some (plain, some k)
    → read_all plain (b'\\' ∷ e ∷ s) ≡ emit (some c) (read_all plain s)
read_known c k e s same h =
    read_pair e k s h ∙ ap (λ d. emit (some d) (read_all plain s)) (sym (equal c k same))
  where
    equal : (c k : ℕ) → (c == k) ≡ true → c ≡ k
    equal c k h = ground arith

read_escaped :
    (c : ℕ) (s : Bytes)
    → read_all plain (escape_character c ++ s) ≡ emit (some c) (read_all plain s)
unfolding escape_character read_character
read_escaped c s = elim (Bool-cases (c == b'\\')) [
  | inl h ↦ rw h (read_known c b'\\' b'\\' s h refl)
  | inr not_backslash ↦ rw not_backslash (elim (Bool-cases (c == b'\n')) [
    | inl h ↦ rw h (read_known c b'\n' b'n' s h refl)
    | inr not_newline ↦ rw not_newline (elim (Bool-cases (c == b'\r')) [
      | inl h ↦ rw h (read_known c b'\r' b'r' s h refl)
      | inr not_return ↦ rw not_return (elim (Bool-cases (c == b'\t')) [
        | inl h ↦ rw h (read_known c b'\t' b't' s h refl)
        | inr not_tab ↦ rw not_tab (elim (Bool-cases (is_control c)) [
          | inl h ↦ rw h (read_control c s h)
          | inr h ↦ rw h (read_plain c s not_backslash)
        ])
      ])
    ])
  ])
]

-- The escaping of a message loses nothing: reading the escapes of `escape_log_value`'s result back
-- gives the message, whatever characters it has.
pub unescape-escape_log_value : (s : Bytes) → unescape (escape_log_value s) ≡ some s
unfolding unescape read_all escape_log_value
unescape-escape_log_value [] = refl
unescape-escape_log_value (c ∷ s) =
    read_escaped c (escape_log_value s) ∙ ap (emit (some c)) (unescape-escape_log_value s)
