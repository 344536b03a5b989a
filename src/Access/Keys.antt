-- ===== src/Access/Keys.antt =====
-- access.go: a user is found by an entry that names the same handle, however it is written.
use mathlib.Core.List.{Memᴰ}
use mamechat.Prelude.{ℕ, ◌≡◌, refl, sym, ap, true, false, Option, List, [], ◌∷◌, ◌++◌, Text, codes}
use mamechat.Strings.{is_empty, is_space, trim_space, to_lower, has_prefix, trim_prefix_of}
use mamechat.Strings.Trimming.{trim_space-idempotent, trim_right_of_trimmed, trim_space_solid}
use mamechat.Access.{
  Entry, Url, handle_key, subject_key, url_keys, resolved_keys, raw_keys, raw_entry, entry_keys,
  user_keys, listed,
}
use mamechat.Access.Decision.{listed_iff}

mem_append_right : (k : Text) (xs ys : List Text) → Memᴰ k ys → Memᴰ k (xs ++ ys)
mem_append_right k [] ys m = m
mem_append_right k (x ∷ xs) ys m = Memᴰ.tail (mem_append_right k xs ys m)

module _ (table : ℕ → ℕ) (parse_url : Text → Option Url) where
  handle_key-trim_space :
      (h : Text) → handle_key table parse_url (trim_space h) ≡ handle_key table parse_url h
  unfolding handle_key
  handle_key-trim_space h = rw (trim_space-idempotent h)

  mem-user_keys_handle :
      (provider subject handle profile_url : Text)
      → is_empty (trim_space handle) ≡ false
      → Memᴰ
          (handle_key table parse_url handle)
          (user_keys table parse_url provider subject handle profile_url)
  unfolding user_keys
  mem-user_keys_handle provider subject handle profile_url h =
      rw h (mem_append_right _ _ _ (Memᴰ.head (sym (handle_key-trim_space handle))))

  resolved→entry_keys :
      (e : Entry) (k : Text)
      → Memᴰ k (resolved_keys table parse_url e)
      → Memᴰ k (entry_keys table parse_url e)
  unfolding entry_keys
  resolved→entry_keys e k m = go (resolved_keys table parse_url e) m
    where
      go : (ks : List Text) → Memᴰ k ks → Memᴰ k (mamechat.Access.or_raw table parse_url ks e)
      go [] n = elim n [ ]
      go (j ∷ js) n = n

  mem-entry_keys_handle :
      (e : Entry)
      → is_empty e.handle ≡ false
      → Memᴰ (handle_key table parse_url e.handle) (entry_keys table parse_url e)
  unfolding resolved_keys
  mem-entry_keys_handle e h =
      resolved→entry_keys e (handle_key table parse_url e.handle)
        (rw h (mem_append_right _ _ _ (Memᴰ.head refl)))

  -- A user with a handle is listed if some entry of the list has the same handle up to case and
  -- the spaces around it.
  pub listed_of_handle :
      (list : List Entry) (e : Entry) (provider subject handle profile_url : Text)
      → Memᴰ e list
      → is_empty e.handle ≡ false
      → is_empty (trim_space handle) ≡ false
      → to_lower table (trim_space e.handle) ≡ to_lower table (trim_space handle)
      → listed table parse_url list (user_keys table parse_url provider subject handle profile_url)
        ≡ true
  unfolding handle_key
  listed_of_handle list e provider subject handle profile_url m a b same =
      let keys = user_keys table parse_url provider subject handle profile_url in
      let k = handle_key table parse_url e.handle in
      let mine : Memᴰ k keys =
        rw (ap (λ t. codes "handle:" ++ t) same)
          (mem-user_keys_handle provider subject handle profile_url b) in
      (listed_iff table parse_url list keys).1 (e, m, (k, mem-entry_keys_handle e a, mine))

  -- An entry that holds only the text of a handle with an "@" before it has the key of the handle,
  -- if the handle is not empty and no space begins or ends it.
  pub entry_keys-raw_at :
      (h : Text)
      → trim_space h ≡ h
      → is_empty h ≡ false
      → entry_keys table parse_url (raw_entry (b'@' ∷ h)) ≡ handle_key table parse_url h ∷ []
  unfolding entry_keys resolved_keys raw_keys to_lower has_prefix trim_prefix_of
  entry_keys-raw_at h t e =
      rw (trim_space_solid b'@' h (unfold is_space in refl) (trim_right_of_trimmed h t), raw_keys)
        (rw (t, e) refl)
