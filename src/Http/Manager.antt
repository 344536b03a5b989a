-- ===== src/Http/Manager.antt =====
-- httpserver/routes.go: what the owner of a channel and the administrators can do to it
-- (`requireChannelManager` and the handlers behind it). The body of a request is none where it is
-- not JSON of the right form, and a number of it an `int` or `int32`.
pub mod Gates
pub mod Hours
use mamechat.Prelude.{
  ℕ, ◌*◌, Bool, true, false, not, ◌&&◌, ◌||◌, Option, none, some, Text, ℤ, pos, negsuc, leb, ◌==◌,
  is_some, lookup, codes, if◌then◌else◌,
}
use mamechat.Chat.Time.{Duration, second}
use mamechat.Chat.User.{UserSnapshot}
use mamechat.Chat.Admission.{is_privileged}
use mamechat.Chat.Hub.{
  World, Env, Effect, noted, reading_channel, setting_retention, setting_grace, operating_notified,
}
use mamechat.Chat.Requests.{
  Answer, done, not_operating, failed, request_start_operating, request_open_channel,
  request_extend_operating, request_set_operating_duration, request_suspend_now,
}
use mamechat.Store.{ChannelRow}
use mamechat.Store.Settings.{set_channel_suspend_retention, set_channel_suspend_grace}
use mamechat.Http.{
  Response, success, bad_request, unauthorized, forbidden, not_found, conflict, internal_error,
}

-- `channel.OwnerUserID.Valid && channel.OwnerUserID.Int64 == session.User.ID`
unfoldable pub is_owner : UserSnapshot → Option ℕ → Bool
is_owner user none = false
is_owner user (some id) = id == user.id

unfoldable pub is_manager : UserSnapshot → ChannelRow → Bool
unfolding is_owner is_privileged
is_manager user row = is_owner user row.owner_user_id || is_privileged user.role

pub data Gate : Type 0 where
  passed : ChannelRow → Gate
  refused : Response → Gate

pub manage_row : UserSnapshot → Option ChannelRow → Gate
manage_row user none = refused (not_found (codes "channel not found"))
manage_row user (some row) =
    if is_manager user row then passed row else refused (forbidden (codes "channel owner only"))

-- `requireChannelManager`, for the user of the session; none if there is no session.
unfoldable pub require_channel_manager : Env → Option UserSnapshot → Text → World → Gate
unfolding manage_row
require_channel_manager env none slug w = refused unauthorized
require_channel_manager env (some user) slug w =
    if env.fails reading_channel
    then refused (internal_error (codes "failed to load channel"))
    else manage_row user (lookup slug w.table)

store_retention : Env → Text → Option ℤ → World → World × Response
store_retention env slug hours w =
    if env.fails setting_retention
    then (w, internal_error (codes "failed to update channel"))
    else (record w { table = set_channel_suspend_retention hours slug w.table }, success)

-- `setChannelSuspendRetentionByOwner` behind the gate: no negative number of hours.
set_retention : Env → Text → Option (Option ℤ) → World → World × Response
set_retention env slug none w = (w, bad_request (codes "invalid json"))
set_retention env slug (some none) w = store_retention env slug none w
set_retention env slug (some (some (pos n))) w = store_retention env slug (some (pos n)) w
set_retention env slug (some (some (negsuc n))) w =
    (w, bad_request (codes "infinite is not allowed"))

-- Any negative number is stored as -1.
abbrev pub normal_grace : Option ℤ → Option ℤ
normal_grace none = none
normal_grace (some (pos n)) = some (pos n)
normal_grace (some (negsuc n)) = some (negsuc 0)

-- `setChannelSuspendGraceByOwner` behind the gate.
set_grace : Env → Text → Option (Option ℤ) → World → World × Response
set_grace env slug none w = (w, bad_request (codes "invalid json"))
set_grace env slug (some seconds) w =
    if env.fails setting_grace then (w, internal_error (codes "failed to update channel")) else (
      record w { table = set_channel_suspend_grace (normal_grace seconds) slug w.table },
      success,
    )

-- The minutes that a body asks for, if they are allowed.
abbrev pub allowed_minutes : (ℕ → Bool) → ℤ → Option ℕ
allowed_minutes test (pos n) = if test n then some n else none
allowed_minutes test (negsuc n) = none

abbrev pub allowed_operating_minutes : ℕ → Bool
allowed_operating_minutes n = n == 30 || n == 60 || n == 90 || n == 120 || n == 180

abbrev pub allowed_extend_minutes : ℕ → Bool
allowed_extend_minutes n = n == 5 || n == 15 || n == 30 || n == 60 || n == 120

abbrev pub minutes_of_day : ℕ → Bool
minutes_of_day n = leb 1 n && leb n (24 * 60)

-- `time.Duration(n) * time.Minute`
abbrev pub minutes : ℕ → Duration
minutes n = n * (60 * second)

-- `notifyChannelOperating`, which sends push messages later.
abbrev notify : Text → World → World
notify slug w = noted (operating_notified slug) w

opened : Text → Bool → Text → World × Answer → World × Response
opened slug told failure (w, done) = (if told then notify slug w else w, success)
opened slug told failure (w, not_operating) = (w, internal_error failure)
opened slug told failure (w, failed) = (w, internal_error failure)

changed : Text → Bool → Text → World × Answer → World × Response
changed slug told failure (w, done) = (if told then notify slug w else w, success)
changed slug told failure (w, not_operating) = (w, conflict (codes "channel is not operating"))
changed slug told failure (w, failed) = (w, internal_error failure)

-- `startOperatingByOwner` behind the gate.
start : Env → Text → Option ℕ → World → World × Response
start env slug none w =
    (w, bad_request (codes "durationMinutes must be one of 30, 60, 90, 120, 180"))
start env slug (some n) w =
    opened slug true (codes "failed to start operating")
      (request_start_operating env slug (minutes n) w)

-- `extendOperatingByOwner` behind the gate.
extend : Env → Text → Option ℕ → World → World × Response
extend env slug none w = (w, bad_request (codes "minutes must be one of 5, 15, 30, 60, 120"))
extend env slug (some n) w =
    changed slug false (codes "failed to extend operating")
      (request_extend_operating env slug (minutes n) w)

-- `setOperatingDurationByOwner` behind the gate; `closed` tells that the channel was found closed.
set_duration : Env → Text → Bool → Option ℕ → World → World × Response
set_duration env slug closed none w =
    (w, bad_request (codes "durationMinutes must be between 1 and 1440"))
set_duration env slug closed (some n) w =
    changed slug closed (codes "failed to set operating duration")
      (request_set_operating_duration env slug (minutes n) w)

-- The requests of a channel's manager, with their bodies.
pub data ManagerRequest : Type 0 where
  set_suspend_retention set_suspend_grace : Option (Option ℤ) → ManagerRequest
  start_operating extend_operating set_operating_duration : Option ℤ → ManagerRequest
  open_channel suspend_now : ManagerRequest

abbrev invalid_body : World → World × Response
invalid_body w = (w, bad_request (codes "invalid request body"))

-- A request that the gate has let through to the channel.
unfoldable pub managed : Env → Text → ChannelRow → ManagerRequest → World → World × Response
unfolding store_retention set_retention set_grace opened changed start extend set_duration
managed env slug row (set_suspend_retention body) w = set_retention env slug body w
managed env slug row (set_suspend_grace body) w = set_grace env slug body w
managed env slug row (start_operating none) w = invalid_body w
managed env slug row (start_operating (some n)) w =
    start env slug (allowed_minutes allowed_operating_minutes n) w
managed env slug row (extend_operating none) w = invalid_body w
managed env slug row (extend_operating (some n)) w =
    extend env slug (allowed_minutes allowed_extend_minutes n) w
managed env slug row (set_operating_duration none) w = invalid_body w
managed env slug row (set_operating_duration (some n)) w =
    set_duration env slug (is_some row.suspended_at) (allowed_minutes minutes_of_day n) w
managed env slug row open_channel w =
    opened slug true (codes "failed to open channel") (request_open_channel env slug w)
managed env slug row suspend_now w =
    opened slug false (codes "failed to suspend channel") (request_suspend_now env slug w)

unfoldable pub through : Env → Text → ManagerRequest → Gate → World → World × Response
through env slug request (passed row) w = managed env slug row request w
through env slug request (refused response) w = (w, response)

-- The handlers `setChannelSuspendRetentionByOwner`, `setChannelSuspendGraceByOwner`,
-- `startOperatingByOwner`, `openChannelByOwner`, `extendOperatingByOwner`,
-- `setOperatingDurationByOwner` and `suspendNowByOwner`.
unfoldable pub handle_manager :
    Env → Option UserSnapshot → Text → ManagerRequest → World → World × Response
unfolding through
handle_manager env session slug request w =
    through env slug request (require_channel_manager env session slug w) w
