-- ===== src/Http/Dictionary.antt =====
-- The dictionary of readings that users and administrators register: the handlers of
-- httpserver/routes.go (`adminUpsertTTSAutoDictionary`, `adminDeleteTTSAutoDictionary`,
-- `adminImportTTSAutoDictionary`), ttsautodict/directive.go, and `registerTTSAutoDictionary` of
-- chat/websocket.go over the table `tts_auto_dictionary_entries`.
pub mod Entries
pub mod Registering
use mamechat.Prelude.{
  ℕ, suc, Bool, true, false, not, ◌&&◌, ◌||◌, Option, none, some, List, [], ◌∷◌, ◌++◌, Text, ltb,
  leb, ◌==◌, any, ◌⊎◌, inl, inr, length, lookup, insert, delete, text_eq, is_some, codes, decimal,
  if◌then◌else◌,
}
use mamechat.Strings.{is_empty, trim_space, to_lower}
use mamechat.Chat.Time.{Time}
use mamechat.Chat.User.{UserSnapshot}
use mamechat.Http.{Response, success, bad_request, not_found, internal_error}
use mamechat.Http.Settings.{trimmed_text}
use mamechat.Http.Channels.{require_admin}

-- A row of the table without its key.
pub record Reading : Type 0 where
  pub term : Text
  pub reading : Text
  pub registered_by_user_id : ℕ
  pub registered_by_handle : Option Text
  pub registered_at : Time

abbrev pub Dictionary : Type 0
Dictionary = List (Text × Reading)

pub data DictionaryCall : Type 0 where
  upserting deleting_entry : Text → DictionaryCall
  committing : DictionaryCall

-- The clock, the calls that fail, the tables of unicode for lower case and for katakana, and the
-- groups 1 and 2 of each match of `directivePattern` in a text.
pub record Clerk : Type 0 where
  pub now : Time
  pub fails : DictionaryCall → Bool
  pub lower : ℕ → ℕ
  pub is_katakana : ℕ → Bool
  pub matches : Text → List (Text × Text)

abbrev pub max_auto_dictionary_len : ℕ
max_auto_dictionary_len = 64

abbrev pub max_auto_dictionary_bulk : ℕ
max_auto_dictionary_bulk = 5000

-- `TermKey`
unfoldable pub term_key : Clerk → Text → Text
term_key clerk term = to_lower clerk.lower (trim_space term)

abbrev pub is_reading_rune : Clerk → ℕ → Bool
is_reading_rune clerk c = clerk.is_katakana c || any (λ d. d == c) (codes "ー・")

-- `ttsAutoDictionaryReadingPattern`: ^[\p{Katakana}ー・]{1,64}$
unfoldable pub is_reading : Clerk → Text → Bool
is_reading clerk s =
    not (any (λ c. not (is_reading_rune clerk c)) s) && leb 1 (length s) && leb (length s) 64

pub data Checked : Type 0 where
  invalid : Text → Checked
  valid : Text → Text → Checked

abbrev breaks_line : Text → Bool
breaks_line s = any (λ c. c == 13 || c == 10) s

-- The checks of `validateTTSAutoDictionaryEntry` on a term and a reading without spaces around them.
unfoldable pub check_trimmed : Clerk → Text → Text → Checked
check_trimmed clerk term reading =
    if is_empty term
    then invalid (codes "term is required")
    else if is_empty reading
    then invalid (codes "reading is required")
    else if breaks_line term
    then invalid (codes "term must be a single line")
    else if ltb max_auto_dictionary_len (length term)
    then invalid (codes "term must be 64 characters or fewer")
    else if not (is_reading clerk reading)
    then invalid (codes "reading must be 1-64 katakana characters")
    else valid term reading

-- `validateTTSAutoDictionaryEntry`; the key of the term is left to the upsert.
unfoldable pub check_entry : Clerk → Text × Text → Checked
check_entry clerk (term, reading) = check_trimmed clerk (trim_space term) (trim_space reading)

abbrev pub registered : Clerk → UserSnapshot → Text → Text → Reading
registered clerk user term reading = record {
  term = term;
  reading = reading;
  registered_by_user_id = user.id;
  registered_by_handle = trimmed_text user.handle;
  registered_at = clerk.now;
}

-- `UpsertTTSAutoDictionaryEntry`, with whether it succeeded.
unfoldable pub upsert_entry : Clerk → UserSnapshot → Text → Text → Dictionary → Dictionary × Bool
upsert_entry clerk user term reading d =
    let key = term_key clerk term in
    if clerk.fails (upserting key)
    then (d, false)
    else (insert key (registered clerk user term reading) d, true)

upserted : Dictionary × Bool → Dictionary × Response
upserted (d, true) = (d, success)
upserted (d, false) = (d, internal_error (codes "failed to save tts dictionary"))

store_checked : Clerk → UserSnapshot → Checked → Dictionary → Dictionary × Response
store_checked clerk user (invalid message) d = (d, bad_request message)
store_checked clerk user (valid term reading) d = upserted (upsert_entry clerk user term reading d)

delete_key : Clerk → Text → Dictionary → Dictionary × Response
delete_key clerk key d =
    if is_empty key
    then (d, bad_request (codes "termKey is required"))
    else if clerk.fails (deleting_entry key)
    then (d, internal_error (codes "failed to delete tts dictionary"))
    else if not (is_some (lookup key d))
    then (d, not_found (codes "tts dictionary entry not found"))
    else (delete key d, success)

-- An entry of an import, the number of which is `i`, in front of those that follow.
with_rest : ℕ → Checked → Text ⊎ List (Text × Text) → Text ⊎ List (Text × Text)
with_rest i (invalid message) rest = inl (codes "entry " ++ (decimal i ++ (codes ": " ++ message)))
with_rest i (valid term reading) (inl problem) = inl problem
with_rest i (valid term reading) (inr cleaned) = inr ((term, reading) ∷ cleaned)

-- The entries of an import that are sound, or what is wrong with the first that is not; they are
-- counted from 1.
check_all : Clerk → ℕ → List (Text × Text) → Text ⊎ List (Text × Text)
check_all clerk i [] = inr []
check_all clerk i (e ∷ entries) =
    with_rest i (check_entry clerk e) (check_all clerk (suc i) entries)

-- The upserts of one transaction; none where one fails.
upsert_all : Clerk → UserSnapshot → List (Text × Text) → Dictionary → Option Dictionary
upsert_all clerk user [] d = if clerk.fails committing then none else some d
upsert_all clerk user ((term, reading) ∷ entries) d =
    let (d', ok) = upsert_entry clerk user term reading d in
    let rest = upsert_all clerk user entries d' in if ok then rest else none

committed : Dictionary → Option Dictionary → Dictionary × Response
committed d none = (d, internal_error (codes "failed to import tts dictionary"))
committed d (some d') = (d', success)

import_checked :
    Clerk → UserSnapshot → Text ⊎ List (Text × Text) → Dictionary → Dictionary × Response
import_checked clerk user (inl problem) d = (d, bad_request problem)
import_checked clerk user (inr entries) d = committed d (upsert_all clerk user entries d)

-- What administrators ask; a body that is not JSON of the right form is none.
pub data DictionaryRequest : Type 0 where
  upsert : Option (Text × Text) → DictionaryRequest
  delete_by_key : Text → DictionaryRequest
  import_entries : Option (List (Text × Text)) → DictionaryRequest

pub change_dictionary :
    Clerk → UserSnapshot → DictionaryRequest → Dictionary → Dictionary × Response
change_dictionary clerk user (upsert none) d = (d, bad_request (codes "invalid json"))
change_dictionary clerk user (upsert (some e)) d = store_checked clerk user (check_entry clerk e) d
change_dictionary clerk user (delete_by_key key) d = delete_key clerk (trim_space key) d
change_dictionary clerk user (import_entries none) d = (d, bad_request (codes "invalid json"))
change_dictionary clerk user (import_entries (some entries)) d =
    if ltb max_auto_dictionary_bulk (length entries)
    then (d, bad_request (codes "too many dictionary entries"))
    else import_checked clerk user (check_all clerk 1 entries) d

unfoldable pub change_as :
    Clerk
    → Option UserSnapshot
    → Option Response
    → DictionaryRequest
    → Dictionary
    → Dictionary × Response
change_as clerk session (some refusal) request d = (d, refusal)
change_as clerk none none request d = (d, success)
change_as clerk (some user) none request d = change_dictionary clerk user request d

unfoldable pub handle_dictionary :
    Clerk → Option UserSnapshot → DictionaryRequest → Dictionary → Dictionary × Response
handle_dictionary clerk session request d =
    change_as clerk session (require_admin session) request d

-- `ExtractDirectives` on the matches, given the keys that were seen.
pub directives_from : Clerk → List Text → List (Text × Text) → List (Text × Text)
directives_from clerk seen [] = []
directives_from clerk seen ((group1, group2) ∷ matches) =
    let term = trim_space group1 in
    let reading = trim_space group2 in
    let key = term_key clerk term in
    let skipped = directives_from clerk seen matches in
    let taken = directives_from clerk (key ∷ seen) matches in
    if is_empty term || is_empty reading || any (λ k. text_eq k key) seen
    then skipped
    else (term, reading) ∷ taken

unfoldable pub extract_directives : Clerk → Text → List (Text × Text)
extract_directives clerk text = directives_from clerk [] (clerk.matches text)

pub register_all : Clerk → UserSnapshot → List (Text × Text) → Dictionary → Dictionary
register_all clerk user [] d = d
register_all clerk user ((term, reading) ∷ directives) d =
    register_all clerk user directives (upsert_entry clerk user term reading d).0

-- `registerTTSAutoDictionary`
unfoldable pub register_auto_dictionary : Clerk → UserSnapshot → Text → Dictionary → Dictionary
register_auto_dictionary clerk user body d =
    register_all clerk user (extract_directives clerk body) d
