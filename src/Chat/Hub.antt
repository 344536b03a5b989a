-- ===== src/Chat/Hub.antt =====
-- chat/hub.go: the state that a node's hub works on, the services around it, and sending to the
-- connections. An operation of the hub is a function from world to world; `log` lists what it did
-- to the outside, the latest first. What a `go` statement or a timer starts is a step of its own.
pub mod Sending
pub mod Delivery
use mamechat.Prelude.{
  ℕ, suc, Bool, true, false, not, ◌||◌, ◌&&◌, Option, none, some, List, [], ◌∷◌, ◌++◌, Text, ltb,
  ◌==◌, if◌then◌else◌, length, lookup, insert, decimal,
}
use mamechat.Chat.Time.{Time, Duration, TimeFormat, format_time}
use mamechat.Chat.User.{Client}
use mamechat.Chat.Channel.{LocalChannel}
use mamechat.Chat.Message.{MessageType, ServerMessage}
use mamechat.Chat.Notices.{presence_refresh, presence_message}
use mamechat.Chat.Presence.{Answers, build_presence}
use mamechat.Store.{Table}

-- The buffer of a client's channel `Send`.
pub record Outbox : Type 0 where
  pub waiting : List ServerMessage
  pub closed : Bool

abbrev pub send_queue_size : ℕ
send_queue_size = 32

-- The reasons that a connection is closed with.
pub data Reason : Type 0 where
  recreated session_revoked channel_deleted channel_closed slow_client subscribe_failed : Reason

-- The calls that can fail.
pub data Service : Type 0 where
  publishing : MessageType → Service
  subscribing marking_active removing_active clearing_active listing_active : Service
  seeing_visitor marking_posted : Service
  pausing resuming suspending starting setting_deadline setting_unlimited reading_channel : Service
  reading_guard reading_policy taking_upload saving_message queueing_speech : Service
  reading_message removing_reaction adding_reaction listing_reactions : Service
  setting_retention setting_grace setting_profile setting_features setting_ttl : Service
  setting_access reloading_channel creating_channel deleting_channel : Service
  clearing_messages reading_setting deleting_message : Service

pub data Effect : Type 0 where
  published : Text → ServerMessage → Effect
  started stopped : Text → Effect
  marked_active removed_active : Text → Text → Effect
  cleared_active : Text → Effect
  seen posted : Client → Effect
  disconnected disconnected_later : ℕ → Reason → Effect
  evaluation_due : Text → Effect
  directives_offered : Text → Effect
  speech_queued : ℕ → Text → Text → Effect
  operating_notified : Text → Effect
  images_deleted messages_cleared : ℕ → Effect
  image_deleted : Text → Effect

-- What the hub finds around it during one operation. `stamp` is what the database makes of an
-- instant that it is given, which it keeps to the microsecond.
pub record Env : Type 0 where
  pub now : Time
  pub db_now : Time
  pub time_format : TimeFormat
  pub stamp : Time → Time
  pub fails : Service → Bool
  pub active : Text → List Text
  pub answers : Text → ℕ → Answers
  pub grace : Duration
  pub grace_enabled : Bool

pub record World : Type 0 where
  pub channels : List (Text × LocalChannel)
  pub timers : List (Text × Time)
  pub table : Table
  pub outbox : ℕ → Outbox
  pub crashed : Bool
  pub log : List Effect

abbrev pub noted : Effect → World → World
noted e w = record w { log = e ∷ w.log }

-- A call of a service whose failure is only logged.
unfoldable pub attempt : Env → Service → Effect → World → World
attempt env s e w = if env.fails s then w else noted e w

-- `h.bus.Publish`, with whether it succeeded.
unfoldable pub publish : Env → Text → ServerMessage → World → World × Bool
publish env slug msg w =
    if env.fails (publishing msg.type) then (w, false) else (noted (published slug msg) w, true)

abbrev pub publish_refresh : Env → Text → World → World
publish_refresh env slug w = (publish env slug (presence_refresh env.time_format env.now slug) w).0

abbrev pub set_outbox : ℕ → Outbox → (ℕ → Outbox) → ℕ → Outbox
set_outbox key box old k = if k == key then box else old k

-- `Enqueue`: a full buffer refuses the message, and a send on a closed channel panics.
unfoldable pub enqueue : ℕ → ServerMessage → World → World × Bool
enqueue key msg w =
    let box = w.outbox key in
    if box.closed
    then (record w { crashed = true }, false)
    else if ltb (length box.waiting) send_queue_size
    then (
      record w {
        outbox = set_outbox key (record box { waiting = box.waiting ++ msg ∷ [] }) w.outbox;
      },
      true,
    )
    else (w, false)

-- Sends to each client; the clients that refused are the slow ones.
unfoldable pub enqueue_all : List Client → ServerMessage → World → World × List Client
enqueue_all [] msg w = (w, [])
enqueue_all (c ∷ cs) msg w =
    let (w', sent) = enqueue c.key msg w in
    let (w'', slow) = enqueue_all cs msg w' in (w'', if sent then slow else c ∷ slow)

-- Closes the connections of some clients.
unfoldable pub disconnect : Reason → List Client → World → World
disconnect reason [] w = w
disconnect reason (c ∷ cs) w = disconnect reason cs (noted (disconnected c.key reason) w)

abbrev pub clients_of : Option LocalChannel → List Client
clients_of none = []
clients_of (some ch) = ch.clients

unfoldable pub send_and_drop : List Client → ServerMessage → World → World
unfolding enqueue_all disconnect
send_and_drop cs msg w = let (w', slow) = enqueue_all cs msg w in disconnect slow_client slow w'

-- `broadcast`
unfoldable pub broadcast : Text → ServerMessage → World → World
broadcast slug msg w = send_and_drop (clients_of (lookup slug w.channels)) msg w

abbrev pub deadline_text : Env → Option Time → Text
deadline_text env none = []
deadline_text env (some t) = format_time env.time_format t

-- `suspendDeadlineFor`
abbrev pub suspend_deadline_for : Env → Text → World → Text
suspend_deadline_for env slug w = deadline_text env (lookup slug w.timers)

unfoldable pub presence_of : Env → Text → LocalChannel → World → ServerMessage
presence_of env slug ch w =
    build_presence env.time_format env.now (env.answers slug ch.channel_id) slug ch.owner_user_id
      (suspend_deadline_for env slug w)

present_to : Env → Text → Option LocalChannel → World → World
present_to env slug none w = w
present_to env slug (some ch) w = send_and_drop ch.clients (presence_of env slug ch w) w

-- `broadcastPresence`
unfoldable pub broadcast_presence : Env → Text → World → World
unfolding present_to
broadcast_presence env slug w = present_to env slug (lookup slug w.channels) w

change : Text → (LocalChannel → LocalChannel) → Option LocalChannel → World → World
change slug f none w = w
change slug f (some ch) w = record w { channels = insert slug (f ch) w.channels }

-- A change of a channel of this node, under the lock.
unfoldable pub change_channel : Text → (LocalChannel → LocalChannel) → World → World
unfolding change
change_channel slug f w = change slug f (lookup slug w.channels) w
