-- ===== src/Filter/Paths/Components.antt =====
-- Which absolute paths count as normalized.
use pam_ssh_agent.Common.{
  Bytes, codes, bytes_eq, List, [], ◌∷◌, false, any, ◌≡◌, refl, arith, bytes_eq_other,
}
use pam_ssh_agent.Filter.Paths.{components, body, split_slash, is_dotted}

empty_dots : bytes_eq [] (codes "..") ≡ false
unfolding bytes_eq
empty_dots = refl

dot_dots : bytes_eq (codes ".") (codes "..") ≡ false
unfolding bytes_eq
dot_dots = refl

body-is_dotted :
    (segments : List Bytes)
    → any is_dotted (body segments) ≡ any (λ segment. bytes_eq segment (codes "..")) segments
unfolding body is_dotted
body-is_dotted [] = refl
body-is_dotted (segment ∷ rest) = ground (
  arith,
  body-is_dotted rest,
  bytes_eq_other segment [] (codes ".."),
  bytes_eq_other segment (codes ".") (codes ".."),
  empty_dots,
  dot_dots,
)

-- An absolute path counts as not normalized exactly if one of its segments is `..`: a `.` segment
-- or an empty one never counts.
pub is_dotted_absolute :
    (s : Bytes)
    → any is_dotted (components (b'/' ∷ s))
      ≡ any (λ segment. bytes_eq segment (codes "..")) (split_slash s)
unfolding components is_dotted
is_dotted_absolute s = ground (arith, body-is_dotted (split_slash s))
