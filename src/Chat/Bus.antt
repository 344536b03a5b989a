-- ===== src/Chat/Bus.antt =====
-- chat/hub.go: the loop `runChannel` of a channel, one message or tick at a time.
pub mod Absence
use mamechat.Prelude.{Bool, true, false, Option, none, some, Text, is_some, if◌then◌else◌}
use mamechat.Strings.{is_empty}
use mamechat.Chat.Time.{Time, zero_time, parse_time}
use mamechat.Chat.Channel.{LocalChannel, apply_operating, apply_paused, apply_unlimited}
use mamechat.Chat.Message.{
  MessageType, ServerMessage, refresh, kicked, suspended, resumed, operating, operating_paused,
  operating_mode, message,
}
use mamechat.Chat.Hub.{World, Env, broadcast, broadcast_presence, change_channel}
use mamechat.Chat.Timer.{evaluate_suspend}
use mamechat.Chat.Connections.{kick_all, kick_non_owners}

-- The deadline in a `channel.operating` message; none if the channel has no time limit.
unfoldable pub told_deadline : Env → ServerMessage → Time
told_deadline env msg =
    if is_empty msg.suspend_deadline
    then zero_time
    else parse_time env.time_format env.now msg.suspend_deadline

apply_mode : Option Bool → LocalChannel → LocalChannel
apply_mode none ch = ch
apply_mode (some unlimited) ch = apply_unlimited ch unlimited

-- What a message does to the channel, under the lock: `setChannelOperating`, `setChannelPaused`
-- and `setChannelUnlimited`.
receive_as : Env → ServerMessage → MessageType → LocalChannel → LocalChannel
receive_as env msg suspended ch = apply_operating ch true zero_time
receive_as env msg resumed ch = apply_operating ch false zero_time
receive_as env msg operating ch = apply_operating ch false (told_deadline env msg)
receive_as env msg operating_paused ch = apply_paused ch msg.paused_remaining_seconds
receive_as env msg operating_mode ch = apply_mode msg.operating_unlimited ch
receive_as env msg _ ch = ch

unfoldable pub receive : Env → ServerMessage → LocalChannel → LocalChannel
unfolding receive_as apply_mode
receive env msg ch = receive_as env msg msg.type ch

-- The setters: the change, then an evaluation.
unfoldable pub set_channel : Env → Text → ServerMessage → World → World
set_channel env slug msg w = evaluate_suspend env slug (change_channel slug (receive env msg) w)

handle_as : Env → Text → ServerMessage → MessageType → World → World
handle_as env slug msg refresh w = broadcast_presence env slug w
handle_as env slug msg kicked w = kick_all env slug w
handle_as env slug msg suspended w =
    kick_non_owners env slug (broadcast slug msg (set_channel env slug msg w))
handle_as env slug msg resumed w = broadcast slug msg (set_channel env slug msg w)
handle_as env slug msg operating w = broadcast slug msg (set_channel env slug msg w)
handle_as env slug msg operating_paused w = broadcast slug msg (set_channel env slug msg w)
handle_as env slug msg operating_mode w =
    broadcast slug msg (if is_some msg.operating_unlimited then set_channel env slug msg w else w)
handle_as env slug msg message w = broadcast_presence env slug (broadcast slug msg w)
handle_as env slug msg _ w = broadcast slug msg w

-- A message of the bus arrives.
unfoldable pub handle_message : Env → Text → ServerMessage → World → World
unfolding handle_as
handle_message env slug msg w = handle_as env slug msg msg.type w

-- The ticker of ten seconds.
unfoldable pub tick : Env → Text → World → World
tick env slug w = evaluate_suspend env slug (broadcast_presence env slug w)
