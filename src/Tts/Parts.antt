-- ===== src/Tts/Parts.antt =====
-- tts/text.go: how a text is cut into the parts that are read one by one (`SplitText`,
-- `splitLongPart`), and the preview of a part in types.go.
pub mod Bounds
pub mod Content
use mamechat.Prelude.{
  ℕ, Bool, ◌||◌, List, [], ◌∷◌, ◌++◌, Text, ltb, leb, ◌==◌, if◌then◌else◌, length, take, drop,
  codes, any,
}
use mamechat.Strings.{is_empty, trim_space}

abbrev pub max_part_runes : ℕ
max_part_runes = 100

-- `strings.ContainsRune(s, r)`
abbrev pub contains_rune : Text → ℕ → Bool
contains_rune s r = any (λ c. c == r) s

-- The runes that end a sentence: 。！？!? and the line feed.
abbrev pub sentence_ends : Text
sentence_ends = 0x3002 ∷ 0xff01 ∷ 0xff1f ∷ b'!' ∷ b'?' ∷ 10 ∷ []

-- The runes after which a long sentence may be cut: 、，,・;:：；
abbrev pub pauses : Text
pauses = 0x3001 ∷ 0xff0c ∷ b',' ∷ 0x30fb ∷ b';' ∷ b':' ∷ 0xff1a ∷ 0xff1b ∷ []

-- `lastBreak - start` after the rune that stands last in `held`; 0 where there is no break.
unfoldable pub last_break : ℕ → ℕ → Text → ℕ
last_break mark r held = if contains_rune pauses r then length held else mark

-- `end - start`
unfoldable pub part_end : ℕ → Text → ℕ
part_end mark held = if ltb 0 mark then mark else length held

-- The loop of `splitLongPart`. `held` are the runes from `start` to the present one, `mark` is
-- `lastBreak - start`, or 0 where `lastBreak` is -1.
unfoldable pub split_long_from : Text → ℕ → Text → List Text
unfolding last_break part_end
split_long_from held mark [] = if is_empty held then [] else trim_space held ∷ []
split_long_from held mark (r ∷ rs) =
    let more = held ++ r ∷ [] in
    let mark_now = last_break mark r more in
    let end = part_end mark_now more in
    let cut = split_long_from (drop end more) 0 rs in
    let uncut = split_long_from more mark_now rs in
    if leb max_part_runes (length more) then trim_space (take end more) ∷ cut else uncut

unfoldable pub split_long_part : Text → List Text
unfolding split_long_from
split_long_part text =
    if leb (length text) max_part_runes then text ∷ [] else split_long_from [] 0 text

-- `flush`, the parts that it appends.
unfoldable pub flush : Text → List Text
unfolding split_long_part
flush current = let s = trim_space current in if is_empty s then [] else split_long_part s

-- The loop of `SplitText` after the runes `current`.
unfoldable pub split_text_from : Text → Text → List Text
unfolding flush
split_text_from current [] = flush current
split_text_from current (r ∷ rs) =
    let more = current ++ r ∷ [] in
    let ended = flush more ++ split_text_from [] rs in
    let longer = split_text_from more rs in if contains_rune sentence_ends r then ended else longer

unfoldable pub split_text : Text → List Text
unfolding split_text_from
split_text text = split_text_from [] text

-- `textPreview`
unfoldable pub text_preview : Text → Text
text_preview text = let s = trim_space text in if ltb 80 (length s) then take 80 s else s
