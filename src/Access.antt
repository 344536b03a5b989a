-- ===== src/Access.antt =====
-- backend/internal/access/access.go: who may enter a channel. The table of `unicode.ToLower`
-- beyond ASCII, `url.Parse` and `json.Unmarshal` are arguments. Sets of keys are lists.
pub mod Keys
pub mod Cleaning
pub mod Decision
use mamechat.Prelude.{
  ℕ, Bool, true, false, not, ◌&&◌, ◌||◌, Option, none, some, List, [], ◌∷◌, ◌++◌, Text, any,
  text_eq, codes, if◌then◌else◌,
}
use mamechat.Strings.{is_empty, trim_space, to_lower, has_prefix, trim_prefix_of, trim_right_of}

abbrev pub mode_none : Text
mode_none = codes "none"

abbrev pub mode_whitelist : Text
mode_whitelist = codes "whitelist"

abbrev pub mode_blacklist : Text
mode_blacklist = codes "blacklist"

unfoldable pub setting_enabled : Text → Bool
setting_enabled value = text_eq value (codes "true")

unfoldable pub normalize_mode : Text → Text
normalize_mode mode =
    if text_eq mode mode_whitelist || text_eq mode mode_blacklist then mode else mode_none

unfoldable pub effective_mode : Text → Bool → Text
unfolding normalize_mode
effective_mode mode whitelist_enabled =
    let m = normalize_mode mode in
    if text_eq m mode_whitelist && not whitelist_enabled then mode_none else m

pub record Entry : Type 0 where
  pub provider : Text
  pub subject : Text
  pub handle : Text
  pub display_name : Text
  pub profile_url : Text
  pub raw : Text

abbrev pub raw_entry : Text → Entry
raw_entry s = record {
  provider = [];
  subject = [];
  handle = [];
  display_name = [];
  profile_url = [];
  raw = s;
}

-- The parts of a parsed URL that the code reads.
pub record Url : Type 0 where
  pub scheme : Text
  pub host : Text
  pub path : Text

-- What `json.Unmarshal` makes of a text: an array of raw elements, a string, or an entry.
pub record Decoder : Type 0 where
  pub array : Text → Option (List Text)
  pub string : Text → Option Text
  pub entry : Text → Option Entry

-- One element of the list: an old string entry, or an object; others are left out.
parse_element : Option Text → Option Entry → List Entry
parse_element (some s) e = let t = trim_space s in if is_empty t then [] else raw_entry t ∷ []
parse_element none (some e) = e ∷ []
parse_element none none = []

parse_elements : Decoder → List Text → List Entry
parse_elements d [] = []
parse_elements d (el ∷ els) = parse_element (d.string el) (d.entry el) ++ parse_elements d els

unfoldable pub parse_list : Decoder → Text → List Entry
unfolding parse_elements parse_element
parse_list d raw =
    if is_empty raw
    then []
    else (elim (d.array raw) [ none ↦ [] | some els ↦ parse_elements d els ])

-- Membership in a set of keys.
abbrev pub mem_key : Text → List Text → Bool
mem_key k [] = false
mem_key k (j ∷ js) = text_eq j k || mem_key k js

-- Some key of the entry is a key of the user.
unfoldable pub hit : List Text → List Text → Bool
hit keys [] = false
hit keys (k ∷ ks) = mem_key k keys || hit keys ks

module _ (table : ℕ → ℕ) (parse_url : Text → Option Url) where
  unfoldable pub canonical_url : Text → Option Text
  canonical_url raw = elim (parse_url (trim_space raw)) [
    | none ↦ none
    | some u ↦
        if is_empty u.host
        then none
        else some (
            to_lower table u.scheme
            ++ codes "://"
            ++ to_lower table u.host
            ++ trim_right_of b'/' u.path)
  ]

  unfoldable pub subject_key : Text → Text → Text
  subject_key provider subject =
      codes "subject:"
      ++ (to_lower table (trim_space provider)
          ++ (codes ":" ++ to_lower table (trim_space subject)))

  unfoldable pub handle_key : Text → Text
  handle_key handle = codes "handle:" ++ to_lower table (trim_space handle)

  -- A key of an address, if it is one.
  unfoldable pub url_keys : Text → List Text
  unfolding canonical_url
  url_keys raw = elim (canonical_url raw) [ none ↦ [] | some c ↦ (codes "url:" ++ c) ∷ [] ]

  -- `rawKey`, with its key or nothing as a list.
  unfoldable pub raw_keys : Text → List Text
  raw_keys raw =
      let text = trim_space raw in
      let lower = to_lower table text in
      let handle = trim_space (trim_prefix_of b'@' text) in
      if is_empty text
      then []
      else if has_prefix (codes "http://") lower || has_prefix (codes "https://") lower
      then url_keys text
      else if is_empty handle
      then []
      else handle_key handle ∷ []

  -- The keys of an entry that has been resolved.
  unfoldable pub resolved_keys : Entry → List Text
  resolved_keys e =
      (if not (is_empty e.provider) && not (is_empty e.subject)
        then subject_key e.provider e.subject ∷ []
        else [])
      ++ ((if is_empty e.handle then [] else handle_key e.handle ∷ [])
          ++ (if is_empty e.profile_url then [] else url_keys e.profile_url))

  abbrev or_raw : List Text → Entry → List Text
  or_raw [] e = if is_empty e.raw then [] else raw_keys e.raw
  or_raw (k ∷ ks) e = k ∷ ks

  unfoldable pub entry_keys : Entry → List Text
  entry_keys e = or_raw (resolved_keys e) e

  -- The loop of `CleanEntries`; `seen` holds the primary keys so far.
  unfoldable pub clean_from : List Text → List Entry → List Entry
  clean_from seen [] = []
  clean_from seen (e ∷ es) = elim (entry_keys e) [
    | [] ↦ clean_from seen es
    | k ∷ ks ↦ elim (mem_key k seen) [
      | true ↦ clean_from seen es
      | false ↦ e ∷ clean_from (k ∷ seen) es
    ]
  ]

  unfoldable pub clean_entries : List Entry → List Entry
  unfolding clean_from
  clean_entries es = clean_from [] es

  unfoldable pub user_keys : Text → Text → Text → Text → List Text
  user_keys provider subject handle profile_url =
      let p = trim_space provider in
      let s = trim_space subject in
      let h = trim_space handle in
      (if not (is_empty p) && not (is_empty s) then subject_key p s ∷ [] else [])
      ++ ((if is_empty h then [] else handle_key h ∷ [])
          ++ (if is_empty profile_url then [] else url_keys profile_url))

  unfoldable pub listed : List Entry → List Text → Bool
  listed list [] = false
  listed list (u ∷ us) = any (λ e. hit (u ∷ us) (entry_keys e)) list

  unfoldable pub allowed : Text → List Entry → List Text → Bool
  unfolding normalize_mode
  allowed mode list keys =
      let m = normalize_mode mode in
      if text_eq m mode_whitelist
      then listed list keys
      else if text_eq m mode_blacklist
      then not (listed list keys)
      else true
