-- ===== src/Http/Settings.antt =====
-- httpserver/routes.go: setting a channel up (`updateChannelSettings`). The steps are taken one
-- after the other; one that answers ends the request, and what was stored before it stays stored.
pub mod Steps
pub mod Validity
use mamechat.Prelude.{
  ℕ, [], is_some, Bool, true, false, not, ◌&&◌, ◌||◌, Option, none, some, List, Text, ℤ, pos,
  negsuc, ltb, ◌==◌, length, lookup, text_eq, codes, if◌then◌else◌,
}
use mamechat.Strings.{is_empty, trim_space}
use mamechat.Access.{Url, Decoder, Entry, mode_whitelist, normalize_mode, parse_list, clean_entries}
use mamechat.Chat.User.{UserSnapshot}
use mamechat.Chat.Message.{text_value}
use mamechat.Chat.Admission.{Answered, whitelist_enabled}
use mamechat.Chat.Hub.{
  World, Env, reading_channel, setting_profile, setting_features, setting_ttl, setting_access,
  reloading_channel,
}
use mamechat.Store.{ChannelRow}
use mamechat.Store.Settings.{
  Features, set_channel_profile, set_channel_features, set_channel_post_ttl, set_channel_access,
}
use mamechat.Http.{
  Response, success, bad_request, unauthorized, forbidden, not_found, internal_error,
}
use mamechat.Http.Manager.{is_manager}

abbrev pub max_channel_title_len : ℕ
max_channel_title_len = 50

abbrev pub max_channel_description_len : ℕ
max_channel_description_len = 200

abbrev pub max_access_list_entries : ℕ
max_access_list_entries = 5000

-- `validateChannelText`: what is wrong; the empty text if nothing is.
unfoldable pub validate_channel_text : Text → Text → Text
validate_channel_text title description =
    if ltb max_channel_title_len (length title)
    then codes "title must be 50 characters or fewer"
    else if ltb max_channel_description_len (length description)
    then codes "description must be 200 characters or fewer"
    else []

-- `nullableText` of routes.go.
unfoldable pub trimmed_text : Text → Option Text
trimmed_text v = let s = trim_space v in if is_empty s then none else some s

-- The body of the request; a field that is left out is none.
pub record SettingsRequest : Type 0 where
  pub title : Option Text
  pub description : Option Text
  pub url_linkify_enabled : Option Bool
  pub image_upload_enabled : Option Bool
  pub no_consecutive_posts : Option Bool
  pub require_comment_for_attachment : Option Bool
  pub post_ttl_hours : Option ℤ
  pub access_mode : Option Text
  pub access_list : Option (List Entry)

-- The world after a step, and the answer if the step ends the request.
abbrev pub Step : Type 0
Step = World × Option Response

infixl 5 ◌>>=◌
abbrev pub ◌>>=◌ : Step → (World → Step) → Step
(w, none) >>= f = f w
(w, some response) >>= f = (w, some response)

abbrev pub or_given {ℓ} : {A : Type ℓ} → A → Option A → A
or_given a none = a
or_given a (some b) = b

abbrev update_failed : World → Step
update_failed w = (w, some (internal_error (codes "failed to update settings")))

abbrev pub trimmed_or : Text → Option Text → Text
trimmed_or kept none = kept
trimmed_or kept (some s) = trim_space s

store_profile : Env → Text → Text → Text → World → Step
store_profile env slug title description w =
    let problem = validate_channel_text title description in
    let name = if is_empty title then slug else title in
    if not (is_empty problem)
    then (w, some (bad_request problem))
    else if env.fails setting_profile
    then update_failed w
    else (
      record w { table = set_channel_profile name (trimmed_text description) slug w.table },
      none,
    )

-- The title and the description, if either is given.
pub set_profile : Env → Text → ChannelRow → Option Text → Option Text → World → Step
set_profile env slug row none none w = (w, none)
set_profile env slug row title description w =
    store_profile env slug (trimmed_or row.title title)
      (trimmed_or (text_value row.description) description) w

abbrev pub features_of : ChannelRow → SettingsRequest → Features
features_of row req = record {
  url_linkify_enabled = or_given row.url_linkify_enabled req.url_linkify_enabled;
  image_upload_enabled = or_given row.image_upload_enabled req.image_upload_enabled;
  no_consecutive_posts = or_given row.no_consecutive_posts req.no_consecutive_posts;
  require_comment_for_attachment =
      or_given row.require_comment_for_attachment req.require_comment_for_attachment;
}

pub set_features : Env → Text → Features → World → Step
set_features env slug features w =
    if env.fails setting_features
    then update_failed w
    else (record w { table = set_channel_features features slug w.table }, none)

-- Six hours, a day or three.
unfoldable pub is_post_ttl : ℤ → Bool
is_post_ttl (pos n) = n == 6 || n == 24 || n == 72
is_post_ttl (negsuc n) = false

pub set_ttl : Env → Text → Option ℤ → World → Step
unfolding is_post_ttl
set_ttl env slug none w = (w, none)
set_ttl env slug (some hours) w =
    if not (is_post_ttl hours)
    then (w, some (bad_request (codes "postTtlHours must be 6, 24, or 72")))
    else if env.fails setting_ttl
    then update_failed w
    else (record w { table = set_channel_post_ttl hours slug w.table }, none)

-- What is wrong with the mode that is given; none if nothing is.
pub mode_problem : ChannelRow → Answered Text → Option Text → Option Response
mode_problem row setting none = none
mode_problem row setting (some mode) =
    if not (text_eq (normalize_mode mode) mode)
    then some (bad_request (codes "accessMode must be none, whitelist, or blacklist"))
    else if text_eq mode mode_whitelist
        && not (text_eq (normalize_mode row.access_mode) mode_whitelist)
        && not (whitelist_enabled setting)
    then some (bad_request (codes "ホワイトリスト機能は無効化されています"))
    else none

list_problem : List Entry → Option Response
list_problem list =
    if ltb max_access_list_entries (length list)
    then some (bad_request (codes "access list has too many entries"))
    else none

-- `json.Marshal` of a list, none if it fails.
pub store_access : Env → Text → Text → Option Text → World → Step
store_access env slug mode none w = update_failed w
store_access env slug mode (some raw) w =
    if env.fails setting_access
    then update_failed w
    else (record w { table = set_channel_access mode raw slug w.table }, none)

module _ (table : ℕ → ℕ) (parse_url : Text → Option Url) (decoder : Decoder)
    (marshal : List Entry → Option Text) where
  -- The list to be stored, and the answer if the one that is given is too long.
  given_list : ChannelRow → Option (List Entry) → List Entry × Option Response
  given_list row none = (parse_list decoder row.access_list, none)
  given_list row (some entries) =
      let list = clean_entries table parse_url entries in (list, list_problem list)

  change_access :
      Env
      → Text
      → ChannelRow
      → Answered Text
      → Option Text
      → List Entry × Option Response
      → World
      → Step
  change_access env slug row setting mode (list, too_long) w =
      (w, mode_problem row setting mode) >>= λ w1. (w1, too_long) >>= λ w2.
      store_access env slug (or_given (normalize_mode row.access_mode) mode) (marshal list) w2

  -- The mode and the list of who may enter, if either is given.
  set_access :
      Env → Text → ChannelRow → Answered Text → Option Text → Option (List Entry) → World → Step
  set_access env slug row setting none none w = (w, none)
  set_access env slug row setting mode entries w =
      change_access env slug row setting mode (given_list row entries) w

  reloaded : Env → Text → World → Step
  reloaded env slug w =
      if env.fails reloading_channel || not (is_some (lookup slug w.table))
      then update_failed w
      else (w, some success)

  -- The steps for a manager's request.
  unfoldable pub set_up : Env → Text → ChannelRow → Answered Text → SettingsRequest → World → Step
  unfolding store_profile set_profile set_features set_ttl mode_problem list_problem store_access
      given_list change_access set_access reloaded
  set_up env slug row setting req w =
      set_profile env slug row req.title req.description w
      >>= set_features env slug (features_of row req)
      >>= set_ttl env slug req.post_ttl_hours
      >>= set_access env slug row setting req.access_mode req.access_list
      >>= reloaded env slug

  pub answered : Step → World × Response
  answered (w, none) = (w, success)
  answered (w, some response) = (w, response)

  unfoldable pub settings_of :
      Env
      → UserSnapshot
      → Text
      → Answered Text
      → Option SettingsRequest
      → Option ChannelRow
      → World
      → World × Response
  settings_of env user slug setting body none w = (w, not_found (codes "channel not found"))
  settings_of env user slug setting body (some row) w =
      if not (is_manager user row)
      then (w, forbidden (codes "channel owner only"))
      else (elim body [
        | none ↦ (w, bad_request (codes "invalid json"))
        | some req ↦ answered (set_up env slug row setting req w)
      ])

  -- `updateChannelSettings`
  unfoldable pub update_channel_settings :
      Env
      → Option UserSnapshot
      → Text
      → Answered Text
      → Option SettingsRequest
      → World
      → World × Response
  unfolding settings_of answered
  update_channel_settings env none slug setting body w = (w, unauthorized)
  update_channel_settings env (some user) slug setting body w =
      if env.fails reading_channel
      then (w, internal_error (codes "failed to update settings"))
      else settings_of env user slug setting body (lookup slug w.table) w
