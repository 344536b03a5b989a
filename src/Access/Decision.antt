-- ===== src/Access/Decision.antt =====
-- access.go: what the decision to let a user in amounts to.
use mathlib.Core.List.{Memᴰ}
use mamechat.Prelude.{
  ℕ, ◌≡◌, refl, sym, ◌↔◌, ◌⊎◌, inl, inr, Bool, true, false, Option, List, [], ◌∷◌, Text, any,
  text_eq, text_eq_iff, arith, Bool-cases,
}
use mamechat.Access.{
  Entry, Url, mode_whitelist, mode_blacklist, effective_mode, mem_key, hit, entry_keys, listed,
  allowed,
}

mem_key→mem : (k : Text) (ks : List Text) → mem_key k ks ≡ true → Memᴰ k ks
mem_key→mem k [] h = absurd (ground arith)
mem_key→mem k (j ∷ js) h = elim (Bool-cases (text_eq j k)) [
  | inl e ↦ Memᴰ.head (sym ((text_eq_iff j k).0 e))
  | inr e ↦ Memᴰ.tail (mem_key→mem k js (ground arith))
]

mem→mem_key : (k : Text) (ks : List Text) → Memᴰ k ks → mem_key k ks ≡ true
mem→mem_key k [] m = elim m [ ]
mem→mem_key k (j ∷ js) (Memᴰ.head e) = ground (arith, (text_eq_iff j k).1 (sym e))
mem→mem_key k (j ∷ js) (Memᴰ.tail m) = ground (arith, mem→mem_key k js m)

-- A key that two lists share.
abbrev pub Shared : List Text → List Text → Type 0
Shared keys ks = (k : Text) × Memᴰ k ks × Memᴰ k keys

hit→shared : (keys ks : List Text) → hit keys ks ≡ true → Shared keys ks
unfolding hit
hit→shared keys [] h = absurd (ground arith)
hit→shared keys (k ∷ ks) h = elim (Bool-cases (mem_key k keys)) [
  | inl e ↦ (k, Memᴰ.head refl, mem_key→mem k keys e)
  | inr e ↦ let (j, a, b) = hit→shared keys ks (ground arith) in (j, Memᴰ.tail a, b)
]

pub shared→hit : (keys ks : List Text) (k : Text) → Memᴰ k ks → Memᴰ k keys → hit keys ks ≡ true
unfolding hit
shared→hit keys [] k m b = elim m [ ]
shared→hit keys (j ∷ js) k (Memᴰ.head e) b = ground (arith, mem→mem_key j keys (rw (sym e) b))
shared→hit keys (j ∷ js) k (Memᴰ.tail m) b = ground (arith, shared→hit keys js k m b)

module _ (table : ℕ → ℕ) (parse_url : Text → Option Url) where
  any→entry :
      (keys : List Text) (list : List Entry)
      → any (λ e. hit keys (entry_keys table parse_url e)) list ≡ true
      → (e : Entry) × Memᴰ e list × Shared keys (entry_keys table parse_url e)
  any→entry keys [] h = absurd (ground arith)
  any→entry keys (e ∷ es) h = elim (Bool-cases (hit keys (entry_keys table parse_url e))) [
    | inl p ↦ (e, Memᴰ.head refl, hit→shared keys _ p)
    | inr p ↦ let (f, a, b) = any→entry keys es (ground arith) in (f, Memᴰ.tail a, b)
  ]

  entry→any :
      (keys : List Text) (list : List Entry) (e : Entry)
      → Memᴰ e list
      → hit keys (entry_keys table parse_url e) ≡ true
      → any (λ e. hit keys (entry_keys table parse_url e)) list ≡ true
  entry→any keys [] e m h = elim m [ ]
  entry→any keys (f ∷ fs) e (Memᴰ.head p) h =
      ground (arith, let q : hit keys (entry_keys table parse_url f) ≡ true = rw (sym p) h in q)
  entry→any keys (f ∷ fs) e (Memᴰ.tail m) h = ground (arith, entry→any keys fs e m h)

  -- A user is listed exactly when some entry of the list and the user share a key.
  pub listed_iff :
      (list : List Entry) (keys : List Text)
      → (listed table parse_url list keys ≡ true)
        ↔ ((e : Entry) × Memᴰ e list × Shared keys (entry_keys table parse_url e))
  unfolding listed
  listed_iff list [] = (λ h. absurd (ground arith), λ h. let (e, m, s) = h in elim s.2 [ ])
  listed_iff list (u ∷ us) = (
    any→entry (u ∷ us) list,
    λ h. let (e, m, s) = h in entry→any (u ∷ us) list e m (shared→hit (u ∷ us) _ s.0 s.1 s.2),
  )

  -- A user is refused exactly when the list is a blacklist that names the user, or a whitelist
  -- that does not, while whitelists are switched on.
  pub refused_iff :
      (mode : Text) (enabled : Bool) (list : List Entry) (keys : List Text)
      → (allowed table parse_url (effective_mode mode enabled) list keys ≡ false) ↔ (
          (mode ≡ mode_blacklist) × (listed table parse_url list keys ≡ true)
          ⊎ (mode ≡ mode_whitelist) × (enabled ≡ true) × (listed table parse_url list keys ≡ false))
  unfolding allowed effective_mode
  refused_iff mode enabled list keys =
      ground (arith, text_eq_iff mode mode_whitelist, text_eq_iff mode mode_blacklist)
