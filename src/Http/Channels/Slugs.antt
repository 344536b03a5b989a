-- ===== src/Http/Channels/Slugs.antt =====
-- httpserver/routes.go: the names that `slugPattern` lets through.
use mamechat.Prelude.{ℕ, ◌≤◌, ◌≡◌, true, [], ◌∷◌, Text, All, length, arith}
use mamechat.Http.Channels.{is_slug_rune, is_slug_tail, is_slug}

-- A rune of an address that needs no escape.
abbrev pub IsSlugRune : ℕ → Type 0
IsSlugRune c = is_slug_rune c ≡ true

is_slug_tail-All : (s : Text) → is_slug_tail s ≡ true → All IsSlugRune s
unfolding is_slug_tail
is_slug_tail-All [] h = tt
is_slug_tail-All (c ∷ []) h = (ground arith, tt)
is_slug_tail-All (c ∷ d ∷ s) h = (ground arith, is_slug_tail-All (d ∷ s) (ground arith))

-- A slug has 8 to 50 runes, each a lower case letter, a digit or a hyphen.
pub is_slug_lem :
    (s : Text) → is_slug s ≡ true → (8 ≤ length s) × (length s ≤ 50) × All IsSlugRune s
unfolding is_slug
is_slug_lem [] h = cc
is_slug_lem (c ∷ s) h =
    (ground arith, ground arith, (ground arith, is_slug_tail-All s (ground arith)))
