-- ===== src/Common/Bits.antt =====
-- Masks of a file's mode and of a signature's flags, read as single bits.
use Prim.Native.Nat.{bit_and, bit_and-bitwise, digits, min}
use Prim.Native.Nat.{ℕ, zero, suc, ◌+◌, ◌*◌, ◌/◌, ◌%◌, ◌^◌, ◌≤◌}
use mathlib.Core.Path.{◌≡◌, refl, sym, ◌∙◌}
use native.Mathlib.Omega.{arith}

abbrev conjunction : ℕ → ℕ → ℕ → ℕ
conjunction rounds a b = digits (λ _. zero) min rounds a b

conjunction-none : (k b : ℕ) → conjunction k 0 b ≡ 0
conjunction-none zero b = refl
conjunction-none (suc k) b = refl

conjunction-zero : (k a : ℕ) → conjunction k a 0 ≡ 0
conjunction-zero zero a = refl
conjunction-zero (suc k) zero = refl
conjunction-zero (suc k) (suc a) = omega (arith, conjunction-zero k (suc a / 2))

-- The result is the same for all rounds that reach past the first number's digits.
conjunction_stable : (k l a b : ℕ) → a ≤ k → a ≤ l → conjunction k a b ≡ conjunction l a b
conjunction_stable k l zero b hk hl = conjunction-none k b ∙ sym (conjunction-none l b)
conjunction_stable zero l (suc a) b hk hl = absurd (omega arith)
conjunction_stable (suc k) zero (suc a) b hk hl = absurd (omega arith)
conjunction_stable (suc k) (suc l) (suc a) b hk hl =
    omega (arith, conjunction_stable k l (suc a / 2) (b / 2) (omega arith) (omega arith))

-- The lowest bit of a conjunction, and the rest.
pub bit_and_halves : (a b : ℕ) → bit_and a b ≡ bit_and (a / 2) (b / 2) * 2 + min (a % 2) (b % 2)
bit_and_halves zero b = omega (arith, bit_and-bitwise 0 b, bit_and-bitwise 0 (b / 2))
bit_and_halves (suc a) b = omega (
  arith,
  bit_and-bitwise (suc a) b,
  bit_and-bitwise (suc a / 2) (b / 2),
  conjunction_stable a (suc a / 2) (suc a / 2) (b / 2) (omega arith) (omega arith),
)

-- The bit of weight `2 ^ k`.
abbrev pub bit : ℕ → ℕ → ℕ
bit k n = n / 2 ^ k % 2

bit_and-bit_zero : (n : ℕ) → bit_and n 1 ≡ n % 2
bit_and-bit_zero n =
    omega (arith, bit_and_halves n 1, bit_and-bitwise (n / 2) 0, conjunction-zero (n / 2) (n / 2))

shift_mask : (n m : ℕ) → m % 2 ≡ 0 → bit_and n m ≡ 2 * bit_and (n / 2) (m / 2)
shift_mask n m h = omega (arith, bit_and_halves n m)

pub bit_and-4 : (n : ℕ) → bit_and n 4 ≡ 4 * bit 2 n
bit_and-4 n =
    omega (arith, shift_mask n 4 (refl), shift_mask (n / 2) 2 (refl), bit_and-bit_zero (n / 2 / 2))

pub bit_and-1 : (n : ℕ) → bit_and n 1 ≡ bit 0 n
bit_and-1 n = omega (arith, bit_and-bit_zero n)

-- 0o022: the write bits of the group and of the others.
pub bit_and-0o022 : (n : ℕ) → bit_and n 0o022 ≡ 2 * bit 1 n + 16 * bit 4 n
bit_and-0o022 n =
    omega (arith, shift_mask n 18 (refl), bit_and_halves (n / 2) 9, bit_and-4 (n / 2 / 2))

bit_and-32 : (n : ℕ) → bit_and n 32 ≡ 32 * bit 5 n
bit_and-32 n = omega (
  arith,
  shift_mask n 32 (refl),
  shift_mask (n / 2) 16 (refl),
  shift_mask (n / 2 / 2) 8 (refl),
  bit_and-4 (n / 2 / 2 / 2),
)

-- 0o1000: the sticky bit.
pub bit_and-0o1000 : (n : ℕ) → bit_and n 0o1000 ≡ 512 * bit 9 n
bit_and-0o1000 n = omega (
  arith,
  shift_mask n 512 (refl),
  shift_mask (n / 2) 256 (refl),
  shift_mask (n / 2 / 2) 128 (refl),
  shift_mask (n / 2 / 2 / 2) 64 (refl),
  bit_and-32 (n / 2 / 2 / 2 / 2),
)
