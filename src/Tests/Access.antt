-- ===== src/Tests/Access.antt =====
-- The theorems on the lists of a channel, at a list with two names for one user.
use mamechat.Prelude.{
  ℕ, ◌≡◌, ◌≢◌, ◌↔◌, ◌⊎◌, refl, true, false, Option, none, some, List, [], ◌∷◌, Text, codes, is_some,
}
use mamechat.Strings.{is_empty, trim_space, to_lower}
use mamechat.Access.{
  Entry, Url, Decoder, raw_entry, mode_whitelist, mode_blacklist, handle_key, user_keys,
}
use mamechat.Access.Keys.{entry_keys-raw_at}
use mamechat.Access.Cleaning.{IsPrimary}
use mamechat.Chat.Admission.{
  Answered, admitted, Answered.found, owner_id, whitelist_enabled, is_exempt, admit,
}
use mamechat.Chat.Admission.Decision.{names, admit_iff}
use mamechat.Tests.{slug, row, user}

abbrev ascii : ℕ → ℕ
ascii c = c

abbrev no_urls : Text → Option Url
no_urls s = none

-- Every text reads as a list that names Mame.
abbrev decoder : Decoder
decoder = record {
  array = λ s. some (codes "@Mame@example.com" ∷ []);
  string = λ s. some s;
  entry = λ s. none;
}

abbrev mame : Text
mame = codes "Mame@example.com"

abbrev resolved : Entry
resolved = record {
  provider = [];
  subject = [];
  handle = mame;
  display_name = [];
  profile_url = [];
  raw = [];
}

abbrev entries : List Entry
entries = raw_entry (codes "@Mame@example.com") ∷ resolved ∷ raw_entry [] ∷ []

abbrev keys : List Text
keys = user_keys ascii no_urls (codes "mastodon") (codes "42") (codes "mame@example.com") []

trimmed : trim_space mame ≡ mame
unfolding trim_space
trimmed = refl

user_handle_nonempty : is_empty (trim_space (codes "mame@example.com")) ≡ false
unfolding trim_space
user_handle_nonempty = refl

same_handle :
    to_lower ascii (trim_space mame) ≡ to_lower ascii (trim_space (codes "mame@example.com"))
unfolding trim_space to_lower
same_handle = refl

mame-IsPrimary :
    IsPrimary ascii no_urls (handle_key ascii no_urls mame) (raw_entry (codes "@Mame@example.com"))
mame-IsPrimary = ([], entry_keys-raw_at ascii no_urls mame trimmed refl)

admit_iff_example :
    (admit ascii no_urls decoder slug (some (user 2)) (found row) Answered.no_rows ≡ admitted row)
    ↔ (((is_some row.suspended_at ≡ false) ⊎ (2 ≡ owner_id row.owner_user_id))
        × ((is_exempt ascii no_urls decoder row (user 2) ≡ true)
            ⊎ (((row.access_mode ≢ mode_blacklist)
                  ⊎ (names ascii no_urls decoder row (user 2) ≡ false))
                × ((row.access_mode ≢ mode_whitelist)
                    ⊎ ((whitelist_enabled Answered.no_rows ≡ false)
                        ⊎ (names ascii no_urls decoder row (user 2) ≡ true))))))
admit_iff_example = admit_iff ascii no_urls decoder slug (user 2) row Answered.no_rows (λ e. cc)
