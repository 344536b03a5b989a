-- ===== src/Tts/Parts/Bounds.antt =====
-- tts/text.go: how long a part can be.
use mamechat.Prelude.{
  ℕ, ◌+◌, ◌≤◌, ◌<◌, ◌≡◌, List, [], ◌∷◌, ◌++◌, Text, leb, length, take, drop, length-append,
  length-take, length-drop, All, arith, Bool-cases, inl, inr,
}
use mamechat.Strings.{is_empty, trim_space}
use mamechat.Strings.Solid.{length-trim_space}
use mamechat.Tts.Parts.{
  max_part_runes, last_break, part_end, split_long_from, split_long_part, flush, split_text_from,
  split_text, contains_rune, pauses, sentence_ends,
}

-- A part that is not too long.
abbrev pub IsShort : Text → Type 0
IsShort s = length s ≤ max_part_runes

All-append {ℓ κ} :
    {A : Type ℓ} (P : A → Type κ) (xs ys : List A) → All P xs → All P ys → All P (xs ++ ys)
All-append P [] ys hx hy = hy
All-append P (x ∷ xs) ys hx hy = (hx.0, All-append P xs ys hx.1 hy)

last_break-le :
    (mark r : ℕ) (held : Text) → mark ≤ length held → last_break mark r held ≤ length held
unfolding last_break
last_break-le mark r held h = ground (arith, Bool-cases (contains_rune pauses r))

part_end_bounds :
    (mark : ℕ) (held : Text)
    → mark ≤ length held
    → 0 < length held
    → (0 < part_end mark held) × (part_end mark held ≤ length held)
unfolding part_end
part_end_bounds mark held h p = ground arith

trimmed-IsShort : (s : Text) → length s ≤ max_part_runes → IsShort (trim_space s)
trimmed-IsShort s h = omega (arith, length-trim_space s)

split_long_from-IsShort :
    (held : Text) (mark : ℕ) (rest : Text)
    → length held < max_part_runes
    → mark ≤ length held
    → All IsShort (split_long_from held mark rest)
unfolding split_long_from
split_long_from-IsShort held mark [] h m = elim (Bool-cases (is_empty held)) [
  | inl e ↦ rw e tt
  | inr e ↦ rw e (trimmed-IsShort held (omega arith), tt)
]
split_long_from-IsShort held mark (r ∷ rs) h m =
    let more = held ++ r ∷ [] in
    let grown : length more ≡ length held + 1 = length-append held (r ∷ []) in
    let marked : last_break mark r more ≤ length more = last_break-le mark r more (omega arith) in
    let end = part_end (last_break mark r more) more in
    let (moves, inside) = part_end_bounds (last_break mark r more) more marked (omega arith) in
    elim (Bool-cases (leb max_part_runes (length more))) [
      | inl e ↦ rw e (
        trimmed-IsShort (take end more) (omega (arith, length-take end more)),
        split_long_from-IsShort (drop end more) 0 rs (omega (arith, length-drop end more))
            (omega arith),
      )
      | inr e ↦
          rw e (split_long_from-IsShort more (last_break mark r more) rs (ground arith) marked)
    ]

split_long_part-IsShort : (s : Text) → All IsShort (split_long_part s)
unfolding split_long_part
split_long_part-IsShort s = elim (Bool-cases (leb (length s) max_part_runes)) [
  | inl e ↦ rw e (ground arith, tt)
  | inr e ↦ rw e (split_long_from-IsShort [] 0 s (omega arith) (omega arith))
]

flush-IsShort : (current : Text) → All IsShort (flush current)
unfolding flush
flush-IsShort current = elim (Bool-cases (is_empty (trim_space current))) [
  | inl e ↦ rw e tt
  | inr e ↦ rw e (split_long_part-IsShort (trim_space current))
]

split_text_from-IsShort : (current rest : Text) → All IsShort (split_text_from current rest)
unfolding split_text_from
split_text_from-IsShort current [] = flush-IsShort current
split_text_from-IsShort current (r ∷ rs) =
    let more = current ++ r ∷ [] in
    elim (Bool-cases (contains_rune sentence_ends r)) [
      | inl e ↦ rw e (
          All-append IsShort (flush more) (split_text_from [] rs) (flush-IsShort more)
            (split_text_from-IsShort [] rs))
      | inr e ↦ rw e (split_text_from-IsShort more rs)
    ]

-- No part of a text has more than 100 runes.
pub split_text-IsShort : (text : Text) → All IsShort (split_text text)
unfolding split_text
split_text-IsShort text = split_text_from-IsShort [] text
