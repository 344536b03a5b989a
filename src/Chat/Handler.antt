-- ===== src/Chat/Handler.antt =====
-- chat/websocket.go: a message is stored and told to the nodes (`handleChatMessage`).
pub mod Stored
pub mod Alternation
use mamechat.Prelude.{
  ℕ, suc, ◌-◌, ◌%◌, ◌^◌, Bool, true, false, not, ◌&&◌, Option, none, some, List, [], ◌∷◌, Text, ℤ,
  pos, negsuc, int32, codes, if◌then◌else◌,
}
use mamechat.Strings.{is_empty, trim_space}
use mamechat.Chat.User.{Speaker, Client}
use mamechat.Chat.Message.{
  ClientMessage, ClientMessageType, ping, presence_beacon, ChatMessage, error_message,
  message_from_db, nullable_text,
}
use mamechat.Chat.Notices.{pong}
use mamechat.Chat.Hub.{
  World, Env, saving_message, queueing_speech, directives_offered, speech_queued, noted, attempt,
  publish, enqueue,
}
use mamechat.Chat.Connections.{record_post, mark_visitor_seen}
use mamechat.Chat.Post.{
  StagedImage, Desk, Board, refresh_user, refusal, Attached, nothing, gone, image, resolve_image,
}

abbrev pub speaker_uuid : Option Speaker → Text
speaker_uuid none = []
speaker_uuid (some s) = s.uuid

abbrev pub speaker_name : Option Speaker → Text
speaker_name none = []
speaker_name (some s) = s.name

abbrev pub speaker_url : Option Speaker → Text
speaker_url none = []
speaker_url (some s) = s.url

-- Go's conversion of an int to int32.
abbrev low_word : ℤ → ℤ
low_word (pos n) = int32 n
low_word (negsuc n) = int32 (2 ^ 32 - 1 - n % 2 ^ 32)

with_image : Option StagedImage → ChatMessage → ChatMessage
with_image none m = m
with_image (some i) m = record m {
  image_path = some i.storage_path;
  image_width = some (low_word i.width);
  image_height = some (low_word i.height);
}

-- The row that `CreateChatMessage` returns.
unfoldable pub new_message : Env → Client → Text → Option StagedImage → ℕ → ChatMessage
unfolding with_image
new_message env c body img id = with_image img (record {
  id = id;
  channel_id = c.channel_id;
  user_id = c.user.id;
  body = body;
  user_display_name = c.user.display_name;
  user_handle = nullable_text c.user.handle;
  user_avatar_url = nullable_text c.user.avatar_url;
  user_provider = nullable_text c.user.provider;
  user_tts_voicevox_speaker_uuid = nullable_text (speaker_uuid c.user.tts_voicevox_speaker);
  user_tts_voicevox_speaker_name = nullable_text (speaker_name c.user.tts_voicevox_speaker);
  user_tts_voicevox_speaker_url = nullable_text (speaker_url c.user.tts_voicevox_speaker);
  created_at = env.db_now;
  image_path = none;
  image_width = none;
  image_height = none;
})

abbrev pub reject : Text → Client → Board → Board
reject text c b = record b { world = (enqueue c.key (error_message text) b.world).0 }

-- The message is handed to the speech service if its author has a speaker.
unfoldable pub queue_speech : Desk → Env → Client → ChatMessage → World → World
queue_speech desk env c m w =
    let uuid = speaker_uuid c.user.tts_voicevox_speaker in
    if desk.has_tts && not (is_empty m.body) && not (is_empty uuid)
    then attempt env queueing_speech (speech_queued m.id uuid m.body) w
    else w

-- A stored message is recorded and published.
unfoldable pub announce : Desk → Env → Client → ChatMessage → World → World
unfolding queue_speech
announce desk env c m w =
    let (w', told) =
      publish env c.channel_slug (message_from_db env.time_format c.channel_slug m)
        (record_post env c w) in
    if told
    then queue_speech desk env c m w'
    else (enqueue c.key (error_message (codes "failed to publish message")) w').0

module _ (desk : Desk) (env : Env) (c : Client) (body token : Text) where
  -- `registerTTSAutoDictionary` is called on every text that is not empty.
  store : Option StagedImage → Board → Board
  store img b =
      let m = new_message env c body img b.next_id in
      if env.fails saving_message then reject (codes "failed to save message") c b else record b {
        messages = m ∷ b.messages;
        next_id = suc b.next_id;
        world =
            announce desk env c m
              (if is_empty body then b.world else noted (directives_offered body) b.world);
      }

  finish : Attached → Board → Board
  finish nothing b =
      if is_empty body then reject (codes "message body is required") c b else store none b
  finish gone b = reject (codes "image is no longer available") c b
  finish (image i) b = store (some i) b

  pub post_checked : Option Text → Board → Board
  post_checked (some text) b = reject text c b
  post_checked none b = let (b', a) = resolve_image desk env c token b in finish a b'

-- `handleChatMessage`
unfoldable pub handle_chat_message : Desk → Env → Client → Text → Text → Board → Board
unfolding post_checked finish store
handle_chat_message desk env c body token b =
    let user = refresh_user desk c in
    let text = trim_space body in
    post_checked desk env user text token (refusal desk env user text token b) b
