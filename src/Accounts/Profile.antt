-- ===== src/Accounts/Profile.antt =====
-- httpserver/routes.go: what users change about themselves (`updateAccount`, `updateGhostMode`),
-- with `UpdateUserProfile` and `SetUserSettingsGhostMode`.
pub mod Effects
use mamechat.Prelude.{
  ℕ, ◌≡◌, refl, Bool, true, false, not, Option, none, some, Text, ltb, ◌==◌, ◌||◌, ◌&&◌, codes,
  if◌then◌else◌, arith, Bool-cases, Option-cases, inl, inr,
}
use mamechat.Strings.{is_empty, trim_space}
use mamechat.Chat.User.{UserSnapshot}
use mamechat.Chat.Admission.{is_privileged}
use mamechat.Store.{Table}
use mamechat.Store.Settings.{count_channels_owned_by_user}
use mamechat.Accounts.{
  UserRow, UserSettings, Accounts, Office, set_at, setting_ghost, counting_owned, updating_user,
}
use mamechat.Http.{Response, success, bad_request, unauthorized, forbidden, internal_error}
use mamechat.Http.Settings.{trimmed_text}

with_profile : ℕ → Text → Option Text → Option Text → Option UserRow → Accounts → Option Accounts
with_profile id name handle avatar none s = none
with_profile id name handle avatar (some row) s = some (record s {
  users =
      set_at id (some (record row { display_name = name; handle = handle; avatar_url = avatar }))
        s.users;
})

-- `UpdateUserProfile`; none where it fails or there is no such user.
update_user_profile : Office → ℕ → Text → Option Text → Option Text → Accounts → Option Accounts
update_user_profile office id name handle avatar s =
    if office.fails updating_user then none else with_profile id name handle avatar (s.users id) s

profile_stored : Accounts → Option Accounts → Accounts × Response
profile_stored s none = (s, internal_error (codes "failed to update account"))
profile_stored s (some t) = (t, success)

change_profile : Office → UserSnapshot → Option (Text × Text) → Accounts → Accounts × Response
change_profile office user none s = (s, bad_request (codes "invalid json"))
change_profile office user (some (display_name, avatar)) s =
    if is_empty (trim_space display_name)
    then (s, bad_request (codes "displayName is required"))
    else profile_stored s (
        update_user_profile office user.id (trim_space display_name) (trimmed_text user.handle)
          (trimmed_text (trim_space avatar)) s)

-- `updateAccount` with the name and the avatar of its body.
unfoldable pub update_account :
    Office → Option UserSnapshot → Option (Text × Text) → Accounts → Accounts × Response
unfolding with_profile update_user_profile profile_stored change_profile
update_account office none body s = (s, unauthorized)
update_account office (some user) body s = change_profile office user body s

-- `userCanManage`
unfoldable pub user_can_manage : Office → Table → UserSnapshot → Bool
user_can_manage office table user =
    is_privileged user.role
    || not (office.fails counting_owned) && ltb 0 (count_channels_owned_by_user user.id table)

with_ghost : Bool → Option UserSettings → Option UserSettings
with_ghost enabled none = none
with_ghost enabled (some row) = some (record row { ghost_mode = enabled })

-- `SetUserSettingsGhostMode`, which changes nothing where the user has no settings.
set_ghost_mode : Office → ℕ → Bool → Accounts → Accounts × Response
set_ghost_mode office id enabled s =
    if office.fails setting_ghost then (s, internal_error (codes "ゴーストモードの設定に失敗しました")) else (
      record s { settings = set_at id (with_ghost enabled (s.settings id)) s.settings },
      success,
    )

switch_ghost : Office → UserSnapshot → Option Bool → Accounts → Accounts × Response
switch_ghost office user none s = (s, bad_request (codes "invalid json"))
switch_ghost office user (some enabled) s = set_ghost_mode office user.id enabled s

-- `updateGhostMode`
unfoldable pub update_ghost_mode :
    Office → Table → Option UserSnapshot → Option Bool → Accounts → Accounts × Response
unfolding with_ghost set_ghost_mode switch_ghost
update_ghost_mode office table none body s = (s, unauthorized)
update_ghost_mode office table (some user) body s =
    if not (user_can_manage office table user)
    then (s, forbidden (codes "管理者・オーナーのみ利用できます"))
    else switch_ghost office user body s
