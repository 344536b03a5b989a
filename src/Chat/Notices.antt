-- ===== src/Chat/Notices.antt =====
-- chat/message.go: the messages that carry the time at which they are built.
use mamechat.Prelude.{ℕ, Bool, Option, some, List, [], ◌++◌, Text, ℤ, codes, if◌then◌else◌}
use mamechat.Chat.Time.{Time, TimeFormat, is_zero}
use mamechat.Chat.Message.{
  MessageType, ServerMessage, blank, ReactionGroup, LobbyChannel, TtsPart, PresenceMember,
}

module _ (f : TimeFormat) (now : Time) where
  abbrev stamped : MessageType → ServerMessage
  stamped type = record blank { type = type; created_at = f.format now }

  abbrev about : MessageType → Text → ServerMessage
  about type slug = record (stamped type) { channel_slug = slug }

  abbrev pub reaction_update : Text → Text → List ReactionGroup → ServerMessage
  reaction_update slug message_id groups = record (about MessageType.reaction slug) {
    message_id = message_id;
    reactions = groups;
  }

  abbrev pub lobby_presence : List LobbyChannel → ServerMessage
  lobby_presence channels = record (stamped MessageType.lobby) { channels = channels }

  abbrev pub message_deleted : Text → Text → Text → ServerMessage
  message_deleted message_id channel_id slug = record (about MessageType.deleted slug) {
    id = message_id;
    channel_id = channel_id;
  }

  abbrev pub pong : ServerMessage
  pong = stamped MessageType.pong_reply

  abbrev pub version_message : Text → ServerMessage
  version_message v = record (stamped MessageType.version) { app_version = v }

  abbrev pub channel_suspended : Text → ServerMessage
  channel_suspended slug = about MessageType.suspended slug

  abbrev pub channel_resumed : Text → ServerMessage
  channel_resumed slug = about MessageType.resumed slug

  abbrev pub channel_operating : Text → Time → ServerMessage
  channel_operating slug deadline = record (about MessageType.operating slug) {
    suspend_deadline = if is_zero deadline then [] else f.format deadline;
  }

  abbrev pub channel_operating_paused : Text → Time → ℤ → ServerMessage
  channel_operating_paused slug auto_close seconds =
      record (about MessageType.operating_paused slug) {
        paused_remaining_seconds = seconds;
        suspend_deadline = if is_zero auto_close then [] else f.format auto_close;
      }

  abbrev pub channel_operating_mode : Text → Bool → ServerMessage
  channel_operating_mode slug unlimited = record (about MessageType.operating_mode slug) {
    operating_unlimited = some unlimited;
  }

  abbrev pub channel_kicked : Text → ServerMessage
  channel_kicked slug = about MessageType.kicked slug

  abbrev pub channel_cleared : Text → ServerMessage
  channel_cleared slug = about MessageType.cleared slug

  abbrev pub presence_refresh : Text → ServerMessage
  presence_refresh slug = about MessageType.refresh slug

  abbrev pub presence_message :
      Text → Option PresenceMember → List PresenceMember → ℕ → ℕ → Text → ServerMessage
  presence_message slug owner members active total deadline =
      record (about MessageType.presence slug) {
        owner = owner;
        members = members;
        active_count = active;
        total_count = total;
        suspend_deadline = deadline;
      }

  abbrev pub tts_queued_message : Text → ℕ → ServerMessage
  tts_queued_message message_id part_count = record (stamped MessageType.tts_queued) {
    message_id = message_id;
    part_count = part_count;
  }

  abbrev pub tts_part_ready_message : Text → ℕ → Text → ℤ → ServerMessage
  tts_part_ready_message message_id part_index content_hash duration_ms =
      record (stamped MessageType.tts_part_ready) {
        message_id = message_id;
        part_index = some part_index;
        content_hash = content_hash;
        audio_url = codes "/api/tts/" ++ (content_hash ++ codes ".m4a");
        mime_type = codes "audio/mp4";
        codec = codes "aac-lc";
        duration_ms = duration_ms;
      }

  abbrev pub tts_ready_message : Text → List TtsPart → ServerMessage
  tts_ready_message message_id parts = record (stamped MessageType.tts_ready) {
    message_id = message_id;
    parts = parts;
  }

  abbrev pub tts_skipped_message : Text → Text → ServerMessage
  tts_skipped_message message_id reason = record (stamped MessageType.tts_skipped) {
    message_id = message_id;
    reason = reason;
  }

  abbrev pub tts_error_message : Text → Text → ServerMessage
  tts_error_message message_id reason = record (stamped MessageType.tts_error) {
    message_id = message_id;
    reason = reason;
  }
