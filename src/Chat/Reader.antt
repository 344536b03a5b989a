-- ===== src/Chat/Reader.antt =====
-- chat/websocket.go: a client toggles a reaction (`handleReactionToggle`), and what `readLoop`
-- makes of one frame.
pub mod Toggled
pub mod Turns
use mamechat.Prelude.{
  ℕ, Bool, true, false, not, ◌&&◌, ◌||◌, Option, none, some, List, [], ◌∷◌, Text, ℤ, pos, negsuc,
  ◌==◌, leb, codes, length, parse_int, if◌then◌else◌,
}
use mamechat.Strings.{is_empty, trim_space, byte_len}
use mamechat.Chat.User.{Speaker, Client}
use mamechat.Chat.Message.{
  ClientMessage, ClientMessageType, ping, presence_beacon, chat_message, reaction_toggle, other,
  ChatMessage,
}
use mamechat.Chat.Notices.{pong, reaction_update}
use mamechat.Chat.Message.Reactions.{
  Reaction, remove_message_reaction, toggle_reaction, reaction_groups_from_rows,
}
use mamechat.Chat.Hub.{
  World, Env, reading_message, removing_reaction, adding_reaction, listing_reactions, publish,
  enqueue,
}
use mamechat.Chat.Connections.{mark_visitor_seen}
use mamechat.Chat.Post.{Desk, Board, refresh_user}
use mamechat.Chat.Handler.{reject, handle_chat_message}

refreshed_ghost : Option (Option Speaker × Bool) → Client → Client
refreshed_ghost none c = c
refreshed_ghost (some (speaker, ghost)) c = record c { user = record c.user { ghost_mode = ghost } }

-- The client with the ghost mode that the database holds now.
unfoldable pub refresh_ghost : Desk → Client → Client
unfolding refreshed_ghost
refresh_ghost desk c = refreshed_ghost (desk.live c.user.id) c

unfoldable pub is_emoji : Text → Bool
is_emoji s = not (is_empty s) && leb (byte_len s) 32 && leb (length s) 8

-- The channel of the message with an identifier (`GetChatMessageByID`).
unfoldable pub channel_of : ℕ → List ChatMessage → Option ℕ
channel_of id [] = none
channel_of id (m ∷ ms) =
    let rest = channel_of id ms in if m.id == id then some m.channel_id else rest

is_channel : ℕ → Option ℕ → Bool
is_channel id none = false
is_channel id (some channel) = channel == id

module _ (desk : Desk) (env : Env) (c : Client) (raw_id : Text) where
  -- The groups are told under the identifier as the client sent it.
  tell_groups : ℕ → Board → Board
  tell_groups id b =
      let groups = reaction_groups_from_rows (desk.reaction_rows b.reactions id) in
      if env.fails listing_reactions then b else record b {
        world =
            (publish env c.channel_slug
              (reaction_update env.time_format env.now c.channel_slug raw_id groups) b.world).0;
      }

  -- A reaction is only added if none was removed.
  toggle : Reaction → Board → Board
  toggle r b =
      if env.fails removing_reaction
        || ((remove_message_reaction r b.reactions).1 == 0 && env.fails adding_reaction)
      then reject (codes "failed to update reaction") c b
      else tell_groups r.message_id (record b { reactions = toggle_reaction r b.reactions })

  toggle_message : Text → Option ℤ → Board → Board
  toggle_message emoji none b = reject (codes "invalid message id") c b
  toggle_message emoji (some (negsuc n)) b = reject (codes "message not found") c b
  toggle_message emoji (some (pos id)) b =
      if env.fails reading_message || not (is_channel c.channel_id (channel_of id b.messages))
      then reject (codes "message not found") c b
      else toggle (record { message_id = id; user_id = c.user.id; emoji = emoji }) b

-- `handleReactionToggle`
unfoldable pub handle_reaction_toggle : Desk → Env → Client → Text → Text → Board → Board
unfolding toggle_message toggle tell_groups is_channel
handle_reaction_toggle desk env c raw_id emoji b =
    let d = refresh_ghost desk c in
    let symbol = trim_space emoji in
    if d.user.ghost_mode
    then reject (codes "ゴーストモード中はリアクションできません") d b
    else if not (is_emoji symbol)
    then reject (codes "invalid emoji") d b
    else toggle_message desk env d raw_id symbol (parse_int (trim_space raw_id)) b

-- A frame of the connection: binary, text that is not a message in JSON, or a message.
pub data Frame : Type 0 where
  binary broken : Frame
  request : ClientMessage → Frame

answer : Desk → Env → Client → ClientMessage → ClientMessageType → Board → Client × Board
answer desk env c msg ping b =
    (c, record b { world = (enqueue c.key (pong env.time_format env.now) b.world).0 })
answer desk env c msg presence_beacon b = (c, record b { world = mark_visitor_seen env c b.world })
answer desk env c msg chat_message b =
    (refresh_user desk c, handle_chat_message desk env c msg.body msg.image_token b)
answer desk env c msg reaction_toggle b =
    (refresh_ghost desk c, handle_reaction_toggle desk env c msg.message_id msg.emoji b)
answer desk env c msg other b = (c, reject (codes "unknown message type") c b)

-- One turn of `readLoop`, with the client as it is then.
unfoldable pub read_frame : Desk → Env → Client → Frame → Board → Client × Board
unfolding answer
read_frame desk env c binary b = (c, reject (codes "text messages only") c b)
read_frame desk env c broken b = (c, reject (codes "invalid json") c b)
read_frame desk env c (request msg) b = answer desk env c msg msg.type b

-- The turns of many connections, one after the other. Each has what it finds around it.
unfoldable pub run_turns : Desk → List (Env × Client × Frame) → Board → Board
unfolding read_frame
run_turns desk [] b = b
run_turns desk ((env, c, f) ∷ turns) b = run_turns desk turns (read_frame desk env c f b).1
