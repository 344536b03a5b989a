-- ===== src/Http/Dictionary/Registering.antt =====
-- The dictionary of readings: what posts register, next to what administrators ask.
use mamechat.Prelude.{
  ℕ, ◌≤◌, ◌≡◌, Bool, false, not, Option, List, [], ◌∷◌, Text, any, length, text_eq, All, arith,
  Bool-cases, inl, inr,
}
use mamechat.Strings.{is_empty, trim_left, trim_right, trim_space}
use mamechat.Strings.Solid.{length-trim_space}
use mamechat.Chat.User.{UserSnapshot}
use mamechat.Http.Dictionary.{
  Dictionary, Clerk, term_key, is_reading_rune, is_reading, upsert_entry, DictionaryRequest,
  handle_dictionary, directives_from, extract_directives, register_all, register_auto_dictionary,
}
use mamechat.Http.Dictionary.Entries.{
  IsPair, ArePairs, AreEntries, upsert_entry-AreEntries, handle_dictionary-AreEntries,
}

-- What `directivePattern` makes of a match: 1 to 64 runes in its first group, and 1 to 64 katakana
-- in its second.
abbrev pub IsMatch : Clerk → Text × Text → Type 0
IsMatch clerk (group1, group2) =
    (length group1 ≤ 64)
    × (length group2 ≤ 64)
    × (any (λ c. not (is_reading_rune clerk c)) group2 ≡ false)

any-trim_left : (p : ℕ → Bool) (s : Text) → any p s ≡ false → any p (trim_left s) ≡ false
unfolding trim_left
any-trim_left p [] h = h
any-trim_left p (c ∷ s) h = ground (arith, any-trim_left p s)

any-trim_right : (p : ℕ → Bool) (s : Text) → any p s ≡ false → any p (trim_right s) ≡ false
unfolding trim_right
any-trim_right p [] h = h
any-trim_right p (c ∷ s) h = ground (arith, any-trim_right p s)

any-trim_space : (p : ℕ → Bool) (s : Text) → any p s ≡ false → any p (trim_space s) ≡ false
unfolding trim_space
any-trim_space p s h = any-trim_right p (trim_left s) (any-trim_left p s h)

length_nonempty : (s : Text) → is_empty s ≡ false → 1 ≤ length s
length_nonempty [] h = absurd (cc h)
length_nonempty (c ∷ s) h = omega arith

match-IsPair :
    (clerk : Clerk) (group1 group2 : Text)
    → IsMatch clerk (group1, group2)
    → is_empty (trim_space group1) ≡ false
    → is_empty (trim_space group2) ≡ false
    → IsPair clerk (trim_space group1) (trim_space group2)
unfolding is_reading
match-IsPair clerk group1 group2 (short1, short2, kata) e1 e2 = (
  e1,
  omega (arith, length-trim_space group1),
  rw (any-trim_space (λ c. not (is_reading_rune clerk c)) group2 kata)
      (ground (arith, length-trim_space group2, length_nonempty (trim_space group2) e2)),
)

directives_from-ArePairs :
    (clerk : Clerk) (seen : List Text) (matches : List (Text × Text))
    → All (IsMatch clerk) matches
    → ArePairs clerk (directives_from clerk seen matches)
unfolding directives_from
directives_from-ArePairs clerk seen [] h = tt
directives_from-ArePairs clerk seen ((group1, group2) ∷ matches) (m, h) =
    elim (Bool-cases (is_empty (trim_space group1))) [
      | inl e ↦ rw e (directives_from-ArePairs clerk seen matches h)
      | inr e1 ↦ elim (Bool-cases (is_empty (trim_space group2))) [
        | inl e ↦ rw (e1, e) (directives_from-ArePairs clerk seen matches h)
        | inr e2 ↦
            let key = term_key clerk (trim_space group1) in
            elim (Bool-cases (any (λ k. text_eq k key) seen)) [
              | inl e ↦ rw (e1, e2, e) (directives_from-ArePairs clerk seen matches h)
              | inr e ↦
                  rw (e1, e2, e)
                    (
                      match-IsPair clerk group1 group2 m e1 e2,
                      directives_from-ArePairs clerk (key ∷ seen) matches h,
                    )
            ]
      ]
    ]

register_all-AreEntries :
    (clerk : Clerk) (user : UserSnapshot) (directives : List (Text × Text)) (d : Dictionary)
    → ArePairs clerk directives
    → AreEntries clerk d
    → AreEntries clerk (register_all clerk user directives d)
unfolding register_all
register_all-AreEntries clerk user [] d pairs sound = sound
register_all-AreEntries clerk user ((term, reading) ∷ directives) d (pair, pairs) sound =
    register_all-AreEntries clerk user directives (upsert_entry clerk user term reading d).0 pairs
      (upsert_entry-AreEntries clerk user term reading d pair sound)

register_auto_dictionary-AreEntries :
    (clerk : Clerk) (user : UserSnapshot) (body : Text) (d : Dictionary)
    → All (IsMatch clerk) (clerk.matches body)
    → AreEntries clerk d
    → AreEntries clerk (register_auto_dictionary clerk user body d)
unfolding register_auto_dictionary extract_directives
register_auto_dictionary-AreEntries clerk user body d matched sound =
    register_all-AreEntries clerk user (directives_from clerk [] (clerk.matches body)) d
      (directives_from-ArePairs clerk [] (clerk.matches body) matched) sound

-- What can happen to the dictionary: a request of somebody with or without a session, or a post.
pub data DictionaryEvent : Type 0 where
  asked : Option UserSnapshot → DictionaryRequest → DictionaryEvent
  posted : UserSnapshot → Text → DictionaryEvent

unfoldable pub happen : Clerk → DictionaryEvent → Dictionary → Dictionary
happen clerk (asked session request) d = (handle_dictionary clerk session request d).0
happen clerk (posted user body) d = register_auto_dictionary clerk user body d

-- Whatever administrators ask and users post, failures included, each entry of the dictionary stands
-- under the key of its term, with a term of 1 to 64 runes and a reading of 1 to 64 katakana, if it
-- was so before and the matches of a text are as the pattern of the directives has them.
pub happen-AreEntries :
    (clerk : Clerk) (event : DictionaryEvent) (d : Dictionary)
    → ((text : Text) → All (IsMatch clerk) (clerk.matches text))
    → AreEntries clerk d
    → AreEntries clerk (happen clerk event d)
unfolding happen
happen-AreEntries clerk (asked session request) d matched sound =
    handle_dictionary-AreEntries clerk session request d sound
happen-AreEntries clerk (posted user body) d matched sound =
    register_auto_dictionary-AreEntries clerk user body d (matched body) sound
