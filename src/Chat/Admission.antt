-- ===== src/Chat/Admission.antt =====
-- chat/websocket.go: how a connection is let in (`ServeHTTP`), and auth/admin.go (`IsPrivileged`).
-- The session, the answers of the queries and the outcome of the upgrade are arguments.
pub mod Decision
use mamechat.Prelude.{
  ℕ, Bool, true, false, not, ◌&&◌, ◌||◌, Option, none, some, [], Text, ℤ, text_eq, codes, ◌==◌,
  is_some, if◌then◌else◌,
}
use mamechat.Strings.{is_empty}
use mamechat.Access.{Url, Decoder, setting_enabled, effective_mode, parse_list, user_keys, allowed}
use mamechat.Chat.User.{UserSnapshot, Client}
use mamechat.Chat.Notices.{version_message}
use mamechat.Chat.Hub.{World, Env, subscribe_failed, disconnected, noted, enqueue}
use mamechat.Chat.Connections.{register}
use mamechat.Store.{ChannelRow}

unfoldable pub is_privileged : Text → Bool
is_privileged role = text_eq role (codes "owner") || text_eq role (codes "admin")

-- The answer of a query: a row, `pgx.ErrNoRows`, or another error.
pub data Answered (A : Type 0) : Type 0 where
  found : A → Answered A
  no_rows : Answered A
  failed : Answered A

pub data Entrance : Type 0 where
  admitted : ChannelRow → Entrance
  channel_not_found unauthorized internal_error channel_suspended not_allowed : Entrance

abbrev pub owner_id : Option ℕ → ℕ
owner_id none = 0
owner_id (some id) = id

-- Whitelists are off where the setting cannot be read.
abbrev pub whitelist_enabled : Answered Text → Bool
whitelist_enabled (found value) = setting_enabled value
whitelist_enabled no_rows = false
whitelist_enabled failed = false

module _ (table : ℕ → ℕ) (parse_url : Text → Option Url) (decoder : Decoder) where
  -- The list of the channel lets the user in.
  abbrev pub passes : ChannelRow → UserSnapshot → Answered Text → Bool
  passes row user setting =
      allowed table parse_url (effective_mode row.access_mode (whitelist_enabled setting))
        (parse_list decoder row.access_list)
        (user_keys table parse_url user.provider user.subject user.handle user.profile_url)

  -- The owner, the administrators and ghosts, whom the list does not concern.
  unfoldable pub is_exempt : ChannelRow → UserSnapshot → Bool
  unfolding is_privileged
  is_exempt row user =
      user.id == owner_id row.owner_user_id || is_privileged user.role || user.ghost_mode

  admit_to : Option UserSnapshot → Answered ChannelRow → Answered Text → Entrance
  admit_to none channel setting = unauthorized
  admit_to (some user) no_rows setting = channel_not_found
  admit_to (some user) failed setting = internal_error
  admit_to (some user) (found row) setting =
      if is_some row.suspended_at && not (user.id == owner_id row.owner_user_id)
      then channel_suspended
      else if not (is_exempt row user) && not (passes row user setting)
      then not_allowed
      else admitted row

  -- `ServeHTTP`, up to the upgrade of the connection.
  unfoldable pub admit : Text → Option UserSnapshot → Answered ChannelRow → Answered Text → Entrance
  unfolding admit_to is_exempt
  admit slug session channel setting =
      if is_empty slug then channel_not_found else admit_to session channel setting

-- The client of a connection that is let in. `pause` is what the query of the frozen hours
-- answers; none if it fails.
unfoldable pub new_client : ℕ → UserSnapshot → ℕ → Text → ChannelRow → Option ℤ → Client
new_client key user session_id slug row pause = record {
  key = key;
  user = user;
  session_id = session_id;
  channel_id = row.id;
  channel_slug = slug;
  channel_owner_id = owner_id row.owner_user_id;
  suspend_grace_seconds = row.suspend_grace_seconds;
  channel_suspended = is_some row.suspended_at;
  operating_deadline = row.operating_deadline;
  operating_unlimited = row.operating_unlimited;
  operating_paused = pause;
}

greet : Env → Text → Client → World × Bool → World × Bool
greet env version c (w, false) = (noted (disconnected c.key subscribe_failed) w, false)
greet env version c (w, true) =
    if is_empty version
    then (w, true)
    else ((enqueue c.key (version_message env.time_format env.now version) w).0, true)

-- `ServeHTTP` after the upgrade, up to the loop that reads.
unfoldable pub open_connection : Env → Text → Client → World → World × Bool
unfolding greet
open_connection env version c w = greet env version c (register env c w)
