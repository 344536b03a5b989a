-- ===== src/Chat/Requests.antt =====
-- chat/hub.go: what the HTTP handlers ask of the hub. The database is changed first, then the
-- change is told to every node.
pub mod Agreement
pub mod Handling
pub mod Outcomes
pub mod Extension
use mamechat.Prelude.{
  ℕ, ◌+◌, Bool, true, false, Option, none, some, Text, ltb, ◌==◌, is_some, lookup, if◌then◌else◌,
}
use mamechat.Chat.Time.{Time, Duration, zero_time}
use mamechat.Chat.Message.{ServerMessage}
use mamechat.Chat.Notices.{channel_operating, channel_operating_mode}
use mamechat.Chat.Hub.{
  World, Env, starting, setting_deadline, setting_unlimited, reading_channel, publish,
}
use mamechat.Chat.Timer.{suspend_channel}
use mamechat.Store.{
  ChannelRow, Table, start_channel_operating, set_channel_operating_deadline,
  set_channel_operating_unlimited,
}

-- `nil`, `ErrNotOperating`, or the error of a service.
pub data Answer : Type 0 where
  done not_operating failed : Answer

abbrev sent : World × Bool → World × Answer
sent (w, true) = (w, done)
sent (w, false) = (w, failed)

abbrev with_table : Table → World → World
with_table t w = record w { table = t }

-- The message of an opening that the request publishes.
abbrev pub operating_message : Env → Text → Time → ServerMessage
operating_message env slug deadline = channel_operating env.time_format env.now slug deadline

-- `RequestStartOperating`
unfoldable pub request_start_operating : Env → Text → Duration → World → World × Answer
request_start_operating env slug dur w =
    let deadline = env.now + dur in
    if env.fails starting
    then (w, failed)
    else sent (
        publish env slug (operating_message env slug deadline)
          (with_table (start_channel_operating (some (env.stamp deadline)) slug w.table).0 w))

-- `RequestOpenChannel`
unfoldable pub request_open_channel : Env → Text → World → World × Answer
request_open_channel env slug w =
    if env.fails starting
    then (w, failed)
    else sent (
        publish env slug (operating_message env slug zero_time)
          (with_table (start_channel_operating none slug w.table).0 w))

-- The common end of the requests that move the deadline of an open channel.
move_deadline : Env → Text → Time → World → World × Answer
move_deadline env slug deadline w =
    let (table, affected) =
      set_channel_operating_deadline (some (env.stamp deadline)) slug w.table in
    if env.fails setting_deadline
    then (w, failed)
    else if affected == 0
    then (with_table table w, not_operating)
    else sent (publish env slug (operating_message env slug deadline) (with_table table w))

set_duration : Env → Text → Duration → Option ChannelRow → World → World × Answer
set_duration env slug dur none w = (w, failed)
set_duration env slug dur (some row) w =
    let deadline = env.now + dur in
    if is_some row.suspended_at
    then (if env.fails starting
        then (w, failed)
        else sent (
            publish env slug (operating_message env slug deadline)
              (with_table (start_channel_operating (some (env.stamp deadline)) slug w.table).0 w)))
    else move_deadline env slug deadline w

-- `RequestSetOperatingDuration`
unfoldable pub request_set_operating_duration : Env → Text → Duration → World → World × Answer
unfolding set_duration move_deadline
request_set_operating_duration env slug dur w =
    if env.fails reading_channel
    then (w, failed)
    else set_duration env slug dur (lookup slug w.table) w

-- `SetOperatingUnlimited`
unfoldable pub set_operating_unlimited : Env → Text → Bool → World → World × Answer
set_operating_unlimited env slug unlimited w =
    if env.fails setting_unlimited
    then (w, failed)
    else sent (
        publish env slug (channel_operating_mode env.time_format env.now slug unlimited)
          (with_table (set_channel_operating_unlimited unlimited slug w.table).0 w))

-- The instant that an extension starts from: the closing time if it is still to come.
unfoldable pub extension_base : Time → Option Time → Time
extension_base now none = now
extension_base now (some deadline) = if ltb now deadline then deadline else now

extend : Env → Text → Duration → Option ChannelRow → World → World × Answer
extend env slug dur none w = (w, failed)
extend env slug dur (some row) w =
    if is_some row.suspended_at
    then (w, not_operating)
    else move_deadline env slug (extension_base env.now row.operating_deadline + dur) w

-- `RequestExtendOperating`
unfoldable pub request_extend_operating : Env → Text → Duration → World → World × Answer
unfolding extend extension_base move_deadline
request_extend_operating env slug dur w =
    if env.fails reading_channel then (w, failed) else extend env slug dur (lookup slug w.table) w

-- `RequestSuspendNow`, which reports no failure.
unfoldable pub request_suspend_now : Env → Text → World → World × Answer
unfolding suspend_channel
request_suspend_now env slug w = (suspend_channel env slug w, done)

-- The requests that open a channel, move its closing time or change its mode.
pub data Request : Type 0 where
  start : Duration → Request
  open_unlimited : Request
  set_duration_to : Duration → Request
  extend_by : Duration → Request
  set_unlimited : Bool → Request

abbrev pub perform : Env → Text → Request → World → World × Answer
perform env slug (start dur) w = request_start_operating env slug dur w
perform env slug open_unlimited w = request_open_channel env slug w
perform env slug (set_duration_to dur) w = request_set_operating_duration env slug dur w
perform env slug (extend_by dur) w = request_extend_operating env slug dur w
perform env slug (set_unlimited b) w = set_operating_unlimited env slug b w
