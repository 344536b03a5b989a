-- ===== src/Strings/Trimming.antt =====
-- Laws of trimming.
use mamechat.Prelude.{ℕ, ◌≡◌, refl, ap, sym, ◌∙◌, false, [], ◌∷◌, Text, arith, Bool-cases, inl, inr}
use mamechat.Strings.{is_space, trim_left, trim_right, trim_space}

-- A text that does not start with a space.
abbrev pub StartsSolid : Text → Type 0
StartsSolid [] = Unit
StartsSolid (c ∷ s) = is_space c ≡ false

trim_right-idempotent : (s : Text) → trim_right (trim_right s) ≡ trim_right s
unfolding trim_right
trim_right-idempotent [] = refl
trim_right-idempotent (c ∷ s) = ground (arith, trim_right-idempotent s)

trim_left-StartsSolid : (s : Text) → StartsSolid (trim_left s)
unfolding trim_left
trim_left-StartsSolid [] = tt
trim_left-StartsSolid (c ∷ s) = elim (Bool-cases (is_space c)) [
  | inl e ↦ rw e (trim_left-StartsSolid s)
  | inr e ↦ rw e e
]

trim_right-StartsSolid : (s : Text) → StartsSolid s → StartsSolid (trim_right s)
unfolding trim_right
trim_right-StartsSolid [] h = tt
trim_right-StartsSolid (c ∷ s) h = ground arith

trim_left_of_StartsSolid : (s : Text) → StartsSolid s → trim_left s ≡ s
unfolding trim_left
trim_left_of_StartsSolid [] h = refl
trim_left_of_StartsSolid (c ∷ s) h = ground arith

pub trim_space-StartsSolid : (s : Text) → StartsSolid (trim_space s)
unfolding trim_space
trim_space-StartsSolid s = trim_right-StartsSolid (trim_left s) (trim_left-StartsSolid s)

pub trim_space-idempotent : (s : Text) → trim_space (trim_space s) ≡ trim_space s
unfolding trim_space
trim_space-idempotent s =
    ap trim_right
      (trim_left_of_StartsSolid _ (trim_right-StartsSolid (trim_left s) (trim_left-StartsSolid s)))
    ∙ trim_right-idempotent (trim_left s)

pub trim_right_of_trimmed : (s : Text) → trim_space s ≡ s → trim_right s ≡ s
unfolding trim_space
trim_right_of_trimmed s h = ap trim_right (sym h) ∙ (trim_right-idempotent (trim_left s) ∙ h)

pub trim_space_solid :
    (c : ℕ) (s : Text) → is_space c ≡ false → trim_right s ≡ s → trim_space (c ∷ s) ≡ c ∷ s
unfolding trim_space
trim_space_solid c s h t = ground arith
