-- ===== src/Strings/Solid.antt =====
-- Trimming removes spaces only.
use mamechat.Prelude.{
  ◌≤◌, ◌≡◌, refl, ◌∙◌, not, [], ◌∷◌, Text, length, keep, arith, Bool-cases, inl, inr,
}
use mamechat.Strings.{is_space, trim_left, trim_right, trim_space}

-- The runes of a text that are not spaces.
unfoldable pub solid : Text → Text
solid = keep (λ c. not (is_space c))

length-trim_left : (s : Text) → length (trim_left s) ≤ length s
unfolding trim_left
length-trim_left [] = omega arith
length-trim_left (c ∷ s) = ground (arith, length-trim_left s)

length-trim_right : (s : Text) → length (trim_right s) ≤ length s
unfolding trim_right
length-trim_right [] = omega arith
length-trim_right (c ∷ s) = ground (arith, length-trim_right s)

pub length-trim_space : (s : Text) → length (trim_space s) ≤ length s
unfolding trim_space
length-trim_space s = omega (arith, length-trim_right (trim_left s), length-trim_left s)

solid-trim_left : (s : Text) → solid (trim_left s) ≡ solid s
unfolding trim_left solid
solid-trim_left [] = refl
solid-trim_left (c ∷ s) = elim (Bool-cases (is_space c)) [
  | inl e ↦ rw e (solid-trim_left s)
  | inr e ↦ rw e (rw e refl)
]

solid-trim_right : (s : Text) → solid (trim_right s) ≡ solid s
unfolding trim_right solid
solid-trim_right [] = refl
solid-trim_right (c ∷ s) = ground (arith, solid-trim_right s)

-- Trimming loses no rune that is not a space.
pub solid-trim_space : (s : Text) → solid (trim_space s) ≡ solid s
unfolding trim_space
solid-trim_space s = solid-trim_right (trim_left s) ∙ solid-trim_left s
