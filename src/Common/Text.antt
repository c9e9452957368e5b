-- ===== src/Common/Text.antt =====
-- `&str` and `&[u8]`: a text is the list of its bytes. The searches of `str` that the program
-- calls, over ASCII patterns, where bytes and characters agree.
use Prim.Native.Char.{code}
use Prim.Native.Nat.{ℕ, zero, suc, ◌+◌}
use Prim.Native.String.{String}
use mathlib.Core.Bool.{Bool, true, false, ◌&&◌}
use mathlib.Core.List.{List, [], ◌∷◌, ◌++◌}
use mathlib.Core.Logic.{◌≢◌, inl, inr}
use mathlib.Core.Option
use mathlib.Core.Option.{Option, none, some, none-ne-some}
use mathlib.Core.Path.{◌≡◌, refl, ap}
use native.Mathlib.Nat.{zero-add, suc-add}
use native.Mathlib.Omega.{arith}
use pam_ssh_agent.Common.Lists.{length, take, drop, All}
use pam_ssh_agent.Common.Tests.{◌==◌, if◌then◌else◌, is_some, Option-cases}

abbrev pub Bytes : Type 0
Bytes = List ℕ

-- The code points of a literal: its bytes, if it is ASCII.
abbrev pub codes : String → Bytes
codes String.[] = []
codes (String.◌∷◌ c s) = code c ∷ codes s

-- `==` on texts.
unfoldable pub bytes_eq : Bytes → Bytes → Bool
bytes_eq [] [] = true
bytes_eq (x ∷ xs) (y ∷ ys) = x == y && bytes_eq xs ys
bytes_eq _ _ = false

pub bytes_eq_refl : (a : Bytes) → bytes_eq a a ≡ true
unfolding bytes_eq
bytes_eq_refl [] = refl
bytes_eq_refl (x ∷ xs) = ground (arith, bytes_eq_refl xs)

pub bytes_eq_sound : (a b : Bytes) → bytes_eq a b ≡ true → a ≡ b
unfolding bytes_eq
bytes_eq_sound [] [] h = refl
bytes_eq_sound [] (y ∷ ys) h = cc
bytes_eq_sound (x ∷ xs) [] h = cc
bytes_eq_sound (x ∷ xs) (y ∷ ys) h = ground (arith, bytes_eq_sound xs ys)

pub bytes_eq_other :
    (a b c : Bytes) → bytes_eq a b ≡ true → bytes_eq b c ≡ false → bytes_eq a c ≡ false
bytes_eq_other a b c h k = rw (bytes_eq_sound a b h) k

-- `text.strip_prefix(pattern)`
unfoldable pub strip_prefix : Bytes → Bytes → Option Bytes
strip_prefix s [] = some s
strip_prefix [] (p ∷ ps) = none
strip_prefix (c ∷ s) (p ∷ ps) = if c == p then strip_prefix s ps else none

abbrev pub starts_with : Bytes → Bytes → Bool
starts_with s p = is_some (strip_prefix s p)

-- `text.find(pattern)`: the index of the first occurrence.
unfoldable pub find : Bytes → Bytes → Option ℕ
unfolding strip_prefix
find [] p = if starts_with [] p then some 0 else none
find (c ∷ s) p = if starts_with (c ∷ s) p then some 0 else Option.map suc (find s p)

-- `text.contains(pattern)`
unfoldable pub contains : Bytes → Bytes → Bool
unfolding find
contains s p = is_some (find s p)

-- `text.split_once(sep)`, and `text.splitn(2, sep)` where it yields two parts.
unfoldable pub split_once : Bytes → ℕ → Option (Bytes × Bytes)
split_once [] sep = none
split_once (c ∷ s) sep =
    if c == sep then some ([], s) else Option.map (λ (a, b). (c ∷ a, b)) (split_once s sep)

pub strip_prefix_sound : (s p : Bytes) {r : Bytes} → strip_prefix s p ≡ some r → s ≡ p ++ r
unfolding strip_prefix
strip_prefix_sound s [] h = cc
strip_prefix_sound [] (p ∷ ps) h = cc
strip_prefix_sound (c ∷ s) (p ∷ ps) {r} h = ground (arith, strip_prefix_sound s ps {r = r})

pub strip_prefix-append : (p r : Bytes) → strip_prefix (p ++ r) p ≡ some r
unfolding strip_prefix
strip_prefix-append [] r = refl
strip_prefix-append (p ∷ ps) r = ground (arith, strip_prefix-append ps r)

-- No byte of the text is `b`.
abbrev pub Lacks : ℕ → Bytes → Type 0
Lacks b = All (λ c. c ≢ b)

-- What `find` returns cuts the text around an occurrence.
pub find-split :
    (s p : Bytes) {i : ℕ}
    → find s p ≡ some i
    → (pre post : Bytes) × (s ≡ pre ++ (p ++ post)) × (length pre ≡ i)
unfolding find
find-split [] p {i} h = elim (Option-cases (strip_prefix [] p)) [
  | inl e ↦ absurd (none-ne-some i (rw e at h))
  | inr (r, e) ↦ ([], r, strip_prefix_sound [] p e, ground arith)
]
find-split (c ∷ s) p {i} h = elim (Option-cases (strip_prefix (c ∷ s) p)) [
  | inl e ↦ elim (Option-cases (find s p)) [
    | inl f ↦ absurd (ground arith)
    | inr (j, f) ↦
        let (pre, post, cut, len) = find-split s p f in
        (c ∷ pre, post, ap (λ ys. c ∷ ys) cut, ground arith)
  ]
  | inr (r, e) ↦ ([], r, strip_prefix_sound (c ∷ s) p e, ground arith)
]

module _ {ℓ} {A : Type ℓ} where
  pub take-append : (pre post : List A) → take (length pre) (pre ++ post) ≡ pre
  take-append [] post = refl
  take-append (x ∷ pre) post = ap (λ ys. x ∷ ys) (take-append pre post)

  pub drop-append : (pre post : List A) → drop (length pre) (pre ++ post) ≡ post
  drop-append [] post = refl
  drop-append (x ∷ pre) post = drop-append pre post

  drop_nil : (n : ℕ) → ◌≡◌ {A = List A} [] (drop n [])
  drop_nil zero = refl
  drop_nil (suc n) = refl

  pub drop-add : (m n : ℕ) (xs : List A) → drop (m + n) xs ≡ drop n (drop m xs)
  drop-add zero n xs = rw zero-add
  drop-add (suc m) n [] = rw suc-add (drop_nil n)
  drop-add (suc m) n (x ∷ xs) = rw suc-add (drop-add m n xs)

pub find-Lacks : (s : Bytes) (b : ℕ) (p : Bytes) → Lacks b s → find s (b ∷ p) ≡ none
unfolding find strip_prefix
find-Lacks [] b p h = refl
find-Lacks (c ∷ s) b p h = ground (arith, find-Lacks s b p h.1)

-- The first occurrence of one byte.
pub find-append_byte :
    (pre post : Bytes) (b : ℕ) → Lacks b pre → find (pre ++ b ∷ post) (b ∷ []) ≡ some (length pre)
unfolding find strip_prefix
find-append_byte [] post b h = ground arith
find-append_byte (c ∷ pre) post b h = ground (arith, find-append_byte pre post b h.1)

-- The first occurrence of two unlike bytes, behind a text without such an occurrence.
pub find-append_pair :
    (pre post : Bytes) (b d : ℕ)
    → b ≢ d
    → contains pre (b ∷ d ∷ []) ≡ false
    → find (pre ++ b ∷ d ∷ post) (b ∷ d ∷ []) ≡ some (length pre)
unfolding contains
find-append_pair [] post b d ne h = ground arith
find-append_pair (c ∷ []) post b d ne h = ground arith
find-append_pair (c ∷ e ∷ pre) post b d ne h =
    ground (arith, find-append_pair (e ∷ pre) post b d ne)

-- A single `b`, with another byte behind it than the pattern's, is no occurrence.
pub find-none_pair :
    (pre post : Bytes) (b d e : ℕ)
    → Lacks b pre
    → Lacks b post
    → b ≢ d
    → d ≢ e
    → find (pre ++ b ∷ d ∷ post) (b ∷ e ∷ []) ≡ none
unfolding find
find-none_pair [] post b d e hp hq ne other = ground (arith, find-Lacks post b (e ∷ []) hq)
find-none_pair (c ∷ pre) post b d e hp hq ne other =
    ground (arith, find-none_pair pre post b d e hp.1 hq ne other)

pub contains-Lacks : (s : Bytes) (b : ℕ) (p : Bytes) → Lacks b s → contains s (b ∷ p) ≡ false
unfolding contains
contains-Lacks s b p h = rw (find-Lacks s b p h)
