-- ===== src/Tts/Parts/Content.antt =====
-- tts/text.go: that splitting leaves out spaces only, and keeps the order.
use mamechat.Prelude.{
  ℕ, ◌≡◌, refl, true, ap, ◌∙◌, sym, List, [], ◌∷◌, ◌++◌, Text, leb, length, take, drop,
  take-append-drop, keep-append, arith, Bool-cases, inl, inr,
}
use mathlib.Core.List.{append-nil, append_assoc}
use mamechat.Strings.{is_empty, trim_space}
use mamechat.Strings.Solid.{solid, solid-trim_space}
use mamechat.Tts.Parts.{
  max_part_runes, last_break, part_end, split_long_from, split_long_part, flush, split_text_from,
  split_text, contains_rune, sentence_ends,
}

-- What is read aloud of some parts: their runes in order, without the spaces.
unfoldable pub spoken : List Text → Text
spoken [] = []
spoken (p ∷ ps) = solid p ++ spoken ps

solid-append : (s t : Text) → solid (s ++ t) ≡ solid s ++ solid t
unfolding solid
solid-append s t = keep-append _ s t

spoken-append : (ps qs : List Text) → spoken (ps ++ qs) ≡ spoken ps ++ spoken qs
unfolding spoken
spoken-append [] qs = refl
spoken-append (p ∷ ps) qs =
    ap (λ s. solid p ++ s) (spoken-append ps qs)
    ∙ sym (append_assoc (solid p) (spoken ps) (spoken qs))

solid-nil : (s : Text) → solid [] ++ s ≡ s
unfolding solid
solid-nil s = refl

is_empty→nil : (s : Text) → is_empty s ≡ true → s ≡ []
is_empty→nil [] e = refl
is_empty→nil (c ∷ s) e = ground arith

spoken-one : (s : Text) → spoken (s ∷ []) ≡ solid s
unfolding spoken
spoken-one s = append-nil (solid s)

-- Moving a rune from the rest to the runes held.
shift :
    (held : Text) (r : ℕ) (rs : Text)
    → solid (held ++ r ∷ []) ++ solid rs ≡ solid held ++ solid (r ∷ rs)
shift held r rs =
    ap (λ s. s ++ solid rs) (solid-append held (r ∷ []))
    ∙ (append_assoc (solid held) (solid (r ∷ [])) (solid rs)
        ∙ ap (λ s. solid held ++ s) (sym (solid-append (r ∷ []) rs)))

-- Cutting the runes held in two.
cut :
    (n : ℕ) (held rest : Text)
    → solid (trim_space (take n held)) ++ (solid (drop n held) ++ solid rest)
      ≡ solid held ++ solid rest
cut n held rest =
    ap (λ s. s ++ (solid (drop n held) ++ solid rest)) (solid-trim_space (take n held))
    ∙ (sym (append_assoc (solid (take n held)) (solid (drop n held)) (solid rest))
        ∙ ap (λ s. s ++ solid rest)
            (sym (solid-append (take n held) (drop n held)) ∙ ap solid (take-append-drop n held)))

spoken-split_long_from :
    (held : Text) (mark : ℕ) (rest : Text)
    → spoken (split_long_from held mark rest) ≡ solid held ++ solid rest
unfolding split_long_from spoken
spoken-split_long_from held mark [] = elim (Bool-cases (is_empty held)) [
  | inl e ↦ rw e (rw (is_empty→nil held e) (unfold solid in refl))
  | inr e ↦ rw e (unfold solid in ap (λ s. s ++ []) (solid-trim_space held))
]
spoken-split_long_from held mark (r ∷ rs) =
    let more = held ++ r ∷ [] in
    let end = part_end (last_break mark r more) more in
    elim (Bool-cases (leb max_part_runes (length more))) [
      | inl e ↦ rw e (
          ap (λ s. solid (trim_space (take end more)) ++ s)
            (spoken-split_long_from (drop end more) 0 rs)
          ∙ (cut end more rs ∙ shift held r rs))
      | inr e ↦ rw e (spoken-split_long_from more (last_break mark r more) rs ∙ shift held r rs)
    ]

spoken-split_long_part : (s : Text) → spoken (split_long_part s) ≡ solid s
unfolding split_long_part
spoken-split_long_part s = elim (Bool-cases (leb (length s) max_part_runes)) [
  | inl e ↦ rw e (spoken-one s)
  | inr e ↦ rw e (spoken-split_long_from [] 0 s ∙ solid-nil (solid s))
]

spoken-flush : (current : Text) → spoken (flush current) ≡ solid current
unfolding flush
spoken-flush current = elim (Bool-cases (is_empty (trim_space current))) [
  | inl e ↦ rw e (
      sym (
        sym (solid-trim_space current)
        ∙ (ap solid (is_empty→nil _ e) ∙ (unfold solid spoken in refl))))
  | inr e ↦ rw e (spoken-split_long_part (trim_space current) ∙ solid-trim_space current)
]

spoken-split_text_from :
    (current rest : Text) → spoken (split_text_from current rest) ≡ solid current ++ solid rest
unfolding split_text_from
spoken-split_text_from current [] =
    spoken-flush current ∙ (sym (append-nil (solid current)) ∙ (unfold solid in refl))
spoken-split_text_from current (r ∷ rs) =
    let more = current ++ r ∷ [] in
    elim (Bool-cases (contains_rune sentence_ends r)) [
      | inl e ↦ rw e (
          spoken-append (flush more) (split_text_from [] rs)
          ∙ (ap (λ s. s ++ spoken (split_text_from [] rs)) (spoken-flush more)
              ∙ (ap (λ s. solid more ++ s) (spoken-split_text_from [] rs ∙ solid-nil (solid rs))
                  ∙ shift current r rs)))
      | inr e ↦ rw e (spoken-split_text_from more rs ∙ shift current r rs)
    ]

-- The parts of a text have together its runes that are not spaces, each once and in order.
pub spoken-split_text : (text : Text) → spoken (split_text text) ≡ solid text
unfolding split_text
spoken-split_text text = spoken-split_text_from [] text ∙ solid-nil (solid text)
