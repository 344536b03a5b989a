-- ===== src/Http/Dictionary/Entries.antt =====
-- The dictionary of readings: what every entry is like, whoever registered it.
use mamechat.Prelude.{
  ℕ, suc, ◌≤◌, ◌≡◌, refl, Bool, true, false, Option, none, some, List, [], ◌∷◌, Text, ltb, length,
  lookup, lookup-insert, delete, lookup-delete, text_eq, text_eq_iff, is_some, All, arith,
  Bool-cases, Option-cases, ◌⊎◌, inl, inr, subst,
}
use mamechat.Strings.{is_empty, trim_space}
use mamechat.Chat.User.{UserSnapshot}
use mamechat.Http.{Response}
use mamechat.Http.Channels.{require_admin}
use mamechat.Http.Dictionary.{
  Reading, registered, Dictionary, upserting, deleting_entry, committing, Clerk, term_key,
  is_reading, Checked, invalid, valid, check_trimmed, check_entry, upsert_entry, upserted,
  store_checked, delete_key, check_all, with_rest, upsert_all, committed, import_checked,
  DictionaryRequest, upsert, delete_by_key, import_entries, change_dictionary, change_as,
  handle_dictionary,
}

-- A term and a reading that may stand in the dictionary.
abbrev pub IsPair : Clerk → Text → Text → Type 0
IsPair clerk term reading =
    (is_empty term ≡ false) × (length term ≤ 64) × (is_reading clerk reading ≡ true)

-- Each entry stands under the key of its term, which is not empty and has at most 64 runes; its
-- reading has 1 to 64 runes, all of them katakana.
abbrev pub AreEntries : Clerk → Dictionary → Type 0
AreEntries clerk d =
    (key : Text) (row : Reading)
    → lookup key d ≡ some row
    → (term_key clerk row.term ≡ key) × IsPair clerk row.term row.reading

pub upsert_entry-AreEntries :
    (clerk : Clerk) (user : UserSnapshot) (term reading : Text) (d : Dictionary)
    → IsPair clerk term reading
    → AreEntries clerk d
    → AreEntries clerk (upsert_entry clerk user term reading d).0
unfolding upsert_entry
upsert_entry-AreEntries clerk user term reading d pair sound key row =
    elim (Bool-cases (clerk.fails (upserting (term_key clerk term)))) [
      | inl f ↦ rw f (sound key row)
      | inr f ↦
          rw (f, lookup-insert (term_key clerk term) key _ d)
            (elim (Bool-cases (text_eq (term_key clerk term) key)) [
              | inl e ↦ rw e (λ (h : some (registered clerk user term reading) ≡ some row).
                  let same : registered clerk user term reading ≡ row = cc h in
                  subst (λ r. (term_key clerk r.term ≡ key) × IsPair clerk r.term r.reading) same
                    ((text_eq_iff (term_key clerk term) key).0 e, pair))
              | inr e ↦ rw e (sound key row)
            ])
    ]

check_trimmed-IsPair :
    (clerk : Clerk) (s t : Text) {term reading : Text}
    → check_trimmed clerk s t ≡ valid term reading
    → IsPair clerk term reading
unfolding check_trimmed
check_trimmed-IsPair clerk s t {term} {reading} h = ground arith

upserted-same : (p : Dictionary × Bool) → (upserted p).0 ≡ p.0
unfolding upserted
upserted-same (d, true) = refl
upserted-same (d, false) = refl

store_checked-AreEntries :
    (clerk : Clerk) (user : UserSnapshot) (c : Checked) (d : Dictionary)
    → ((term reading : Text) → c ≡ valid term reading → IsPair clerk term reading)
    → AreEntries clerk d
    → AreEntries clerk (store_checked clerk user c d).0
unfolding store_checked
store_checked-AreEntries clerk user (invalid message) d pair sound = sound
store_checked-AreEntries clerk user (valid term reading) d pair sound =
    rw (upserted-same (upsert_entry clerk user term reading d))
      (upsert_entry-AreEntries clerk user term reading d (pair term reading refl) sound)

delete-AreEntries :
    (clerk : Clerk) (key : Text) (d : Dictionary)
    → AreEntries clerk d
    → AreEntries clerk (delete key d)
delete-AreEntries clerk key d sound other row =
    rw (lookup-delete key other d) (elim (Bool-cases (text_eq key other)) [
      | inl e ↦ rw e (λ (h : none ≡ some row). cc)
      | inr e ↦ rw e (sound other row)
    ])

delete_key-AreEntries :
    (clerk : Clerk) (key : Text) (d : Dictionary)
    → AreEntries clerk d
    → AreEntries clerk (delete_key clerk key d).0
unfolding delete_key
delete_key-AreEntries clerk key d sound = elim (Bool-cases (is_empty key)) [
  | inl e ↦ rw e sound
  | inr e ↦ elim (Bool-cases (clerk.fails (deleting_entry key))) [
    | inl f ↦ rw (e, f) sound
    | inr f ↦ elim (Bool-cases (is_some (lookup key d))) [
      | inl there ↦ rw (e, f, there) (delete-AreEntries clerk key d sound)
      | inr gone ↦ rw (e, f, gone) sound
    ]
  ]
]

-- Pairs that may all stand in the dictionary.
abbrev pub ArePairs : Clerk → List (Text × Text) → Type 0
ArePairs clerk = All (λ e. IsPair clerk e.0 e.1)

check_entry-IsPair :
    (clerk : Clerk) (e : Text × Text) {term reading : Text}
    → check_entry clerk e ≡ valid term reading
    → IsPair clerk term reading
unfolding check_entry
check_entry-IsPair clerk (s, t) h = check_trimmed-IsPair clerk (trim_space s) (trim_space t) h

with_rest-ArePairs :
    (clerk : Clerk) (i : ℕ) (c : Checked) (rest : Text ⊎ List (Text × Text))
    {cleaned : List (Text × Text)}
    → ((term reading : Text) → c ≡ valid term reading → IsPair clerk term reading)
    → ((more : List (Text × Text)) → rest ≡ inr more → ArePairs clerk more)
    → with_rest i c rest ≡ inr cleaned
    → ArePairs clerk cleaned
unfolding with_rest
with_rest-ArePairs clerk i (invalid message) rest pair pairs h = absurd (cc h)
with_rest-ArePairs clerk i (valid term reading) (inl problem) pair pairs h = absurd (cc h)
with_rest-ArePairs clerk i (valid term reading) (inr more) {cleaned} pair pairs h =
    let same : (term, reading) ∷ more ≡ cleaned = cc h in
    subst (ArePairs clerk) same (pair term reading refl, pairs more refl)

check_all-ArePairs :
    (clerk : Clerk) (i : ℕ) (entries : List (Text × Text)) {cleaned : List (Text × Text)}
    → check_all clerk i entries ≡ inr cleaned
    → ArePairs clerk cleaned
unfolding check_all
check_all-ArePairs clerk i [] {cleaned} h =
    let same : [] ≡ cleaned = cc h in subst (ArePairs clerk) same tt
check_all-ArePairs clerk i (e ∷ entries) h =
    with_rest-ArePairs clerk i (check_entry clerk e) (check_all clerk (suc i) entries)
      (λ term reading good. check_entry-IsPair clerk e good)
      (λ more sound. check_all-ArePairs clerk (suc i) entries sound) h

upsert_all-AreEntries :
    (clerk : Clerk) (user : UserSnapshot) (entries : List (Text × Text)) (d : Dictionary)
    {d' : Dictionary}
    → ArePairs clerk entries
    → AreEntries clerk d
    → upsert_all clerk user entries d ≡ some d'
    → AreEntries clerk d'
unfolding upsert_all
upsert_all-AreEntries clerk user [] d {d'} pairs sound =
    elim (Bool-cases (clerk.fails committing)) [
      | inl f ↦ rw f (λ (h : none ≡ some d'). cc)
      | inr f ↦ rw f (λ (h : some d ≡ some d').
          let same : d ≡ d' = cc h in subst (AreEntries clerk) same sound)
    ]
upsert_all-AreEntries clerk user ((term, reading) ∷ entries) d {d'} (pair, pairs) sound =
    elim (Bool-cases (upsert_entry clerk user term reading d).1) [
      | inr f ↦ rw f (λ (h : none ≡ some d'). cc)
      | inl f ↦ rw f (
          upsert_all-AreEntries clerk user entries (upsert_entry clerk user term reading d).0 pairs
            (upsert_entry-AreEntries clerk user term reading d pair sound))
    ]

import_checked-AreEntries :
    (clerk : Clerk) (user : UserSnapshot) (r : Text ⊎ List (Text × Text)) (d : Dictionary)
    → ((cleaned : List (Text × Text)) → r ≡ inr cleaned → ArePairs clerk cleaned)
    → AreEntries clerk d
    → AreEntries clerk (import_checked clerk user r d).0
unfolding import_checked committed
import_checked-AreEntries clerk user (inl problem) d pairs sound = sound
import_checked-AreEntries clerk user (inr cleaned) d pairs sound =
    elim (Option-cases (upsert_all clerk user cleaned d)) [
      | inl f ↦ rw f sound
      | inr (d', f) ↦ rw f (upsert_all-AreEntries clerk user cleaned d (pairs cleaned refl) sound f)
    ]

change_dictionary-AreEntries :
    (clerk : Clerk) (user : UserSnapshot) (request : DictionaryRequest) (d : Dictionary)
    → AreEntries clerk d
    → AreEntries clerk (change_dictionary clerk user request d).0
unfolding change_dictionary
change_dictionary-AreEntries clerk user (upsert none) d sound = sound
change_dictionary-AreEntries clerk user (upsert (some e)) d sound =
    store_checked-AreEntries clerk user (check_entry clerk e) d
      (λ term reading h. check_entry-IsPair clerk e h) sound
change_dictionary-AreEntries clerk user (delete_by_key key) d sound =
    delete_key-AreEntries clerk (trim_space key) d sound
change_dictionary-AreEntries clerk user (import_entries none) d sound = sound
change_dictionary-AreEntries clerk user (import_entries (some entries)) d sound =
    elim (Bool-cases (ltb 5000 (length entries))) [
      | inl e ↦ rw e sound
      | inr e ↦ rw e (
          import_checked-AreEntries clerk user (check_all clerk 1 entries) d
            (λ cleaned h. check_all-ArePairs clerk 1 entries h) sound)
    ]

change_as-AreEntries :
    (clerk : Clerk) (session : Option UserSnapshot) (refusal : Option Response)
    (request : DictionaryRequest) (d : Dictionary)
    → AreEntries clerk d
    → AreEntries clerk (change_as clerk session refusal request d).0
unfolding change_as
change_as-AreEntries clerk session (some r) request d sound = sound
change_as-AreEntries clerk none none request d sound = sound
change_as-AreEntries clerk (some user) none request d sound =
    change_dictionary-AreEntries clerk user request d sound

-- Whatever is asked of the dictionary, each of its entries stands under the key of its term, with a
-- term of 1 to 64 runes and a reading of 1 to 64 katakana, if it was so before.
pub handle_dictionary-AreEntries :
    (clerk : Clerk) (session : Option UserSnapshot) (request : DictionaryRequest) (d : Dictionary)
    → AreEntries clerk d
    → AreEntries clerk (handle_dictionary clerk session request d).0
unfolding handle_dictionary
handle_dictionary-AreEntries clerk session request d =
    change_as-AreEntries clerk session (require_admin session) request d
