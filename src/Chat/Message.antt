-- ===== src/Chat/Message.antt =====
-- chat/message.go: the messages of the bus and of the connections, and how they are built. Fields
-- that a constructor leaves out are Go's zero values, as in `blank`.
pub mod Reactions
use mamechat.Prelude.{
  ℕ, Bool, true, false, ◌&&◌, not, Option, none, some, List, [], ◌∷◌, ◌++◌, Text, ℤ, pos, codes,
  decimal, if◌then◌else◌,
}
use mamechat.Strings.{is_empty, trim_space, has_suffix}
use mamechat.Chat.Time.{Time, TimeFormat, is_zero}
use mamechat.Chat.User.{Speaker, UserSnapshot}

pub data ClientMessageType : Type 0 where
  ping presence_beacon chat_message reaction_toggle other : ClientMessageType

-- What a client sends. `other` stands for every type that the handler does not know.
pub record ClientMessage : Type 0 where
  pub type : ClientMessageType
  pub body : Text
  pub image_token : Text
  pub message_id : Text
  pub emoji : Text

pub record ReactionUser : Type 0 where
  pub id : Text
  pub handle : Text
  pub display_name : Text

pub record ReactionGroup : Type 0 where
  pub emoji : Text
  pub count : ℕ
  pub users : List ReactionUser

pub record MessageUser : Type 0 where
  pub id : Text
  pub display_name : Text
  pub handle : Text
  pub avatar_url : Text
  pub provider : Text
  pub tts_voicevox_speaker : Option Speaker

pub record PresenceMember : Type 0 where
  pub user : MessageUser
  pub active : Bool
  pub is_owner : Bool

pub record LobbyChannel : Type 0 where
  pub channel_slug : Text
  pub owner : Option PresenceMember
  pub members : List PresenceMember
  pub active_count : ℕ
  pub total_count : ℕ
  pub suspend_deadline : Text

pub record TtsPart : Type 0 where
  pub part_index : ℕ
  pub content_hash : Text
  pub audio_url : Text
  pub mime_type : Text
  pub codec : Text
  pub duration_ms : ℤ

-- The values of `Type`, in the order of the constructors of message.go; `untyped` is "".
pub data MessageType : Type 0 where
  untyped reaction message error lobby deleted pong_reply version : MessageType
  suspended resumed operating operating_paused operating_mode kicked cleared : MessageType
  refresh presence tts_queued tts_part_ready tts_ready tts_skipped tts_error : MessageType

pub record ServerMessage : Type 0 where
  pub type : MessageType
  pub id : Text
  pub channel_id : Text
  pub channel_slug : Text
  pub user : Option MessageUser
  pub body : Text
  pub created_at : Text
  pub message : Text
  pub node_id : Text
  pub owner : Option PresenceMember
  pub members : List PresenceMember
  pub active_count : ℕ
  pub total_count : ℕ
  pub suspend_deadline : Text
  pub paused_remaining_seconds : ℤ
  pub operating_unlimited : Option Bool
  pub message_id : Text
  pub part_count : ℕ
  pub part_index : Option ℕ
  pub content_hash : Text
  pub audio_url : Text
  pub mime_type : Text
  pub codec : Text
  pub duration_ms : ℤ
  pub parts : List TtsPart
  pub reason : Text
  pub image_url : Text
  pub image_width : ℤ
  pub image_height : ℤ
  pub media_kind : Text
  pub app_version : Text
  pub channels : List LobbyChannel
  pub reactions : List ReactionGroup

abbrev pub blank : ServerMessage
blank = record {
  type = MessageType.untyped;
  id = [];
  channel_id = [];
  channel_slug = [];
  user = none;
  body = [];
  created_at = [];
  message = [];
  node_id = [];
  owner = none;
  members = [];
  active_count = 0;
  total_count = 0;
  suspend_deadline = [];
  paused_remaining_seconds = pos 0;
  operating_unlimited = none;
  message_id = [];
  part_count = 0;
  part_index = none;
  content_hash = [];
  audio_url = [];
  mime_type = [];
  codec = [];
  duration_ms = pos 0;
  parts = [];
  reason = [];
  image_url = [];
  image_width = pos 0;
  image_height = pos 0;
  media_kind = [];
  app_version = [];
  channels = [];
  reactions = [];
}

abbrev pub text_value : Option Text → Text
text_value none = []
text_value (some s) = s

-- `nullableText` of websocket.go.
unfoldable pub nullable_text : Text → Option Text
nullable_text v = if is_empty (trim_space v) then none else some v

-- `ttsVoicevoxSpeakerInfo`
abbrev pub speaker_info : Option Text → Option Text → Option Text → Option Speaker
speaker_info none name url = none
speaker_info (some uuid) none url = none
speaker_info (some uuid) (some name) url =
    some (record { uuid = uuid; name = name; url = text_value url })

abbrev pub user_from_snapshot : UserSnapshot → MessageUser
user_from_snapshot u = record {
  id = decimal u.id;
  display_name = u.display_name;
  handle = u.handle;
  avatar_url = u.avatar_url;
  provider = u.provider;
  tts_voicevox_speaker = u.tts_voicevox_speaker;
}

-- A row of chat_messages.
pub record ChatMessage : Type 0 where
  pub id : ℕ
  pub channel_id : ℕ
  pub user_id : ℕ
  pub body : Text
  pub user_display_name : Text
  pub user_handle : Option Text
  pub user_avatar_url : Option Text
  pub user_provider : Option Text
  pub user_tts_voicevox_speaker_uuid : Option Text
  pub user_tts_voicevox_speaker_name : Option Text
  pub user_tts_voicevox_speaker_url : Option Text
  pub created_at : Time
  pub image_path : Option Text
  pub image_width : Option ℤ
  pub image_height : Option ℤ

abbrev or_zero : Option ℤ → ℤ
or_zero none = pos 0
or_zero (some n) = n

-- The media of a message, by the extension of its path.
with_media : Option Text → ChatMessage → ServerMessage → ServerMessage
with_media none m msg = msg
with_media (some path) m msg = if is_empty path then msg else record msg {
  image_url = codes "/api/uploads/" ++ path;
  media_kind = if has_suffix (codes ".mp4") path then codes "video" else codes "image";
  image_width = or_zero m.image_width;
  image_height = or_zero m.image_height;
}

unfoldable pub message_from_db : TimeFormat → Text → ChatMessage → ServerMessage
unfolding with_media
message_from_db f slug m = with_media m.image_path m (record blank {
  type = MessageType.message;
  id = decimal m.id;
  channel_id = decimal m.channel_id;
  channel_slug = slug;
  user = some (record {
    id = decimal m.user_id;
    display_name = m.user_display_name;
    handle = text_value m.user_handle;
    avatar_url = text_value m.user_avatar_url;
    provider = text_value m.user_provider;
    tts_voicevox_speaker =
        speaker_info m.user_tts_voicevox_speaker_uuid m.user_tts_voicevox_speaker_name
          m.user_tts_voicevox_speaker_url;
  });
  body = m.body;
  created_at = f.format m.created_at;
})

abbrev pub error_message : Text → ServerMessage
error_message text = record blank { type = MessageType.error; message = text }
