-- ===== src/Access/Cleaning.antt =====
-- access.go: `CleanEntries` before a list is stored.
use mathlib.Core.List.{Memᴰ}
use mamechat.Prelude.{
  ℕ, ◌≡◌, refl, sym, ap, ◌∙◌, ◌⊎◌, inl, inr, false, Option, List, [], ◌∷◌, Text, arith, Bool-cases,
  text_eq, text_eq_iff,
}
use mamechat.Access.{Entry, Url, entry_keys, mem_key, clean_from, clean_entries}

-- A list of keys is empty or starts with a primary key.
List-cases : (ks : List Text) → (ks ≡ []) ⊎ ((k : Text) × (rest : List Text) × (ks ≡ k ∷ rest))
List-cases [] = inl refl
List-cases (k ∷ ks) = inr (k, ks, refl)

module _ (table : ℕ → ℕ) (parse_url : Text → Option Url) where
  -- The key under which an entry is stored.
  abbrev pub IsPrimary : Text → Entry → Type 0
  IsPrimary k e = (rest : List Text) × (entry_keys table parse_url e ≡ k ∷ rest)

  -- Every entry has a primary key, and no two entries have the same; none is in `seen`.
  abbrev pub IsClean : List Text → List Entry → Type 0
  IsClean seen [] = Unit
  IsClean seen (e ∷ es) =
      (k : Text) × IsPrimary k e × (mem_key k seen ≡ false) × IsClean (k ∷ seen) es

  clean_from-IsClean :
      (seen : List Text) (es : List Entry) → IsClean seen (clean_from table parse_url seen es)
  unfolding clean_from
  clean_from-IsClean seen [] = tt
  clean_from-IsClean seen (e ∷ es) = elim (List-cases (entry_keys table parse_url e)) [
    | inl none ↦ rw (none, clean_from) (clean_from-IsClean seen es)
    | inr (k, rest, keys) ↦ elim (Bool-cases (mem_key k seen)) [
      | inl old ↦ rw (keys, clean_from) (rw (old, clean_from) (clean_from-IsClean seen es))
      | inr new ↦
          rw (keys, clean_from)
            (rw (new, clean_from) (k, (rest, keys), new, clean_from-IsClean (k ∷ seen) es))
    ]
  ]

  clean_from_of_IsClean :
      (seen : List Text) (es : List Entry)
      → IsClean seen es
      → clean_from table parse_url seen es ≡ es
  unfolding clean_from
  clean_from_of_IsClean seen [] c = refl
  clean_from_of_IsClean seen (e ∷ es) (k, (rest, keys), new, c) =
      rw (keys, clean_from)
        (rw (new, clean_from) (ap (λ t. e ∷ t) (clean_from_of_IsClean (k ∷ seen) es c)))

  clean_from_covers :
      (seen : List Text) (es : List Entry) (e : Entry) (k : Text)
      → Memᴰ e es
      → IsPrimary k e
      → mem_key k seen ≡ false
      → (f : Entry) × Memᴰ f (clean_from table parse_url seen es) × IsPrimary k f
  unfolding clean_from
  clean_from_covers seen [] e k m p new = elim m [ ]
  clean_from_covers seen (g ∷ es) e k (Memᴰ.head same) (rest, keys) new =
      let keys' : entry_keys table parse_url g ≡ k ∷ rest = rw (sym same) keys in
      rw (keys', clean_from) (rw (new, clean_from) (g, Memᴰ.head refl, (rest, keys')))
  clean_from_covers seen (g ∷ es) e k (Memᴰ.tail m) p new =
      elim (List-cases (entry_keys table parse_url g)) [
        | inl none ↦ rw (none, clean_from) (clean_from_covers seen es e k m p new)
        | inr (j, rest, keys) ↦ elim (Bool-cases (mem_key j seen)) [
          | inl old ↦
              rw (keys, clean_from) (rw (old, clean_from) (clean_from_covers seen es e k m p new))
          | inr fresh ↦
              rw (keys, clean_from)
                (rw (fresh, clean_from)
                  (elim (Bool-cases (text_eq j k)) [
                    | inl same ↦ (
                      g,
                      Memᴰ.head refl,
                      (rest, keys ∙ ap (λ t. t ∷ rest) ((text_eq_iff j k).0 same)),
                    )
                    | inr other ↦
                        let (f, n, q) = clean_from_covers (j ∷ seen) es e k m p (ground arith) in
                        (f, Memᴰ.tail n, q)
                  ]))
        ]
      ]

  -- Cleaning leaves only entries that have a key, no two of them with the same primary key.
  pub clean_entries-IsClean : (es : List Entry) → IsClean [] (clean_entries table parse_url es)
  unfolding clean_entries
  clean_entries-IsClean es = clean_from-IsClean [] es

  -- Cleaning keeps an entry for the primary key of each entry of the list that has one.
  pub clean_entries_covers :
      (es : List Entry) (e : Entry) (k : Text)
      → Memᴰ e es
      → IsPrimary k e
      → (f : Entry) × Memᴰ f (clean_entries table parse_url es) × IsPrimary k f
  unfolding clean_entries
  clean_entries_covers es e k m p = clean_from_covers [] es e k m p refl

  -- Cleaning a list a second time changes nothing.
  pub clean_entries-idempotent :
      (es : List Entry)
      → clean_entries table parse_url (clean_entries table parse_url es)
        ≡ clean_entries table parse_url es
  unfolding clean_entries
  clean_entries-idempotent es = clean_from_of_IsClean [] _ (clean_from-IsClean [] es)
