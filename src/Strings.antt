-- ===== src/Strings.antt =====
-- The functions of Go's packages strings and unicode/utf8 that the backend calls, on the code
-- points of a valid UTF-8 string.
pub mod Trimming
pub mod Solid
use mamechat.Prelude.{
  ℕ, zero, suc, ◌+◌, ◌-◌, Bool, true, false, ◌&&◌, ◌||◌, List, [], ◌∷◌, ◌++◌, map, reverse, Text,
  ltb, leb, ◌==◌, if◌then◌else◌,
}

-- `unicode.IsSpace`
unfoldable pub is_space : ℕ → Bool
is_space c =
    (leb 9 c && leb c 13)
    || c == 32
    || c == 0x85
    || c == 0xa0
    || c == 0x1680
    || (leb 0x2000 c && leb c 0x200a)
    || c == 0x2028
    || c == 0x2029
    || c == 0x202f
    || c == 0x205f
    || c == 0x3000

abbrev pub is_empty : Text → Bool
is_empty [] = true
is_empty (c ∷ s) = false

unfoldable pub trim_left : Text → Text
trim_left [] = []
trim_left (c ∷ s) = let rest = trim_left s in if is_space c then rest else c ∷ s

unfoldable pub trim_right : Text → Text
trim_right [] = []
trim_right (c ∷ s) = let rest = trim_right s in if is_empty rest && is_space c then [] else c ∷ rest

-- `strings.TrimSpace`
unfoldable pub trim_space : Text → Text
unfolding trim_left trim_right is_space
trim_space s = trim_right (trim_left s)

-- `strings.TrimRight(s, string(sep))` for one code point.
unfoldable pub trim_right_of : ℕ → Text → Text
trim_right_of sep [] = []
trim_right_of sep (c ∷ s) =
    let rest = trim_right_of sep s in if is_empty rest && c == sep then [] else c ∷ rest

-- `unicode.ToLower`, whose table beyond ASCII is the argument.
abbrev pub lower_rune : (ℕ → ℕ) → ℕ → ℕ
lower_rune table c = if ltb c 128 then (if leb b'A' c && leb c b'Z' then c + 32 else c) else table c

-- `strings.ToLower`
unfoldable pub to_lower : (ℕ → ℕ) → Text → Text
to_lower table s = map (lower_rune table) s

unfoldable pub has_prefix : Text → Text → Bool
has_prefix [] s = true
has_prefix (p ∷ ps) [] = false
has_prefix (p ∷ ps) (c ∷ s) = let rest = has_prefix ps s in p == c && rest

unfoldable pub has_suffix : Text → Text → Bool
has_suffix p s = has_prefix (reverse p) (reverse s)

-- `strings.TrimPrefix(s, string(c))` for one code point.
unfoldable pub trim_prefix_of : ℕ → Text → Text
trim_prefix_of p [] = []
trim_prefix_of p (c ∷ s) = if p == c then s else c ∷ s

-- `strings.Fields`, after the code points `word` of a field.
fields_from : Text → Text → List Text
fields_from word [] = if is_empty word then [] else word ∷ []
fields_from word (c ∷ s) =
    let next = fields_from [] s in
    let more = fields_from (word ++ c ∷ []) s in
    if is_space c then (if is_empty word then next else word ∷ next) else more

unfoldable pub fields : Text → List Text
unfolding fields_from is_space
fields s = fields_from [] s

-- `strings.Join(parts, " ")`
unfoldable pub join_words : List Text → Text
join_words [] = []
join_words (w ∷ []) = w
join_words (w ∷ v ∷ ws) = w ++ 32 ∷ join_words (v ∷ ws)

-- `len(s)`: the bytes of the encoding.
unfoldable pub byte_len : Text → ℕ
byte_len [] = 0
byte_len (c ∷ s) =
    (if ltb c 0x80 then 1 else if ltb c 0x800 then 2 else if ltb c 0x10000 then 3 else 4)
    + byte_len s
