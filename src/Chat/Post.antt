-- ===== src/Chat/Post.antt =====
-- chat/websocket.go: a client posts a message (`handleChatMessage`). The messages of the database
-- and the staged uploads are explicit; what the other tables answer is in the desk.
pub mod Guards
use mamechat.Prelude.{
  ℕ, suc, ◌+◌, ◌*◌, ◌-◌, ◌%◌, ◌^◌, Bool, true, false, not, ◌&&◌, ◌||◌, Option, none, some, List, [],
  ◌∷◌, Text, ℤ, pos, negsuc, int32, any, keep, ltb, ◌==◌, codes, length, lookup, delete,
  if◌then◌else◌,
}
use mamechat.Strings.{is_empty, trim_space, to_lower, has_prefix, fields, join_words}
use mamechat.Chat.User.{Speaker, UserSnapshot, Client}
use mamechat.Chat.Message.{ChatMessage, error_message, message_from_db, nullable_text}
use mamechat.Chat.Message.Reactions.{Reaction, ReactionRow}
use mamechat.Chat.Hub.{
  World, Env, reading_guard, reading_policy, taking_upload, saving_message, queueing_speech,
  directives_offered, speech_queued, noted, attempt, publish, enqueue,
}
use mamechat.Chat.Connections.{record_post}

-- A picture that was uploaded and not yet posted.
pub record StagedImage : Type 0 where
  pub channel_id : ℕ
  pub user_id : ℕ
  pub storage_path : Text
  pub width : ℤ
  pub height : ℤ

-- The switches of a channel for its posts.
pub record PostPolicy : Type 0 where
  pub no_consecutive_posts : Bool
  pub require_comment_for_attachment : Bool
  pub url_linkify_enabled : Bool

-- The handler, what it reads in other tables, and its decoder. A user whose state cannot be read
-- has none. `lower` is the table of `unicode.ToLower`; `reaction_rows` joins the reactions to a
-- message with the table of users.
pub record Desk : Type 0 where
  pub max_message_len : ℤ
  pub has_tts : Bool
  pub has_images : Bool
  pub lower : ℕ → ℕ
  pub live : ℕ → Option (Option Speaker × Bool)
  pub policy : ℕ → Option PostPolicy
  pub decode : Text → Option StagedImage
  pub reaction_rows : List Reaction → ℕ → List ReactionRow

-- The messages of all channels, the latest first, the sequence of their identifiers, the
-- uploads by their tokens, and the reactions.
pub record Board : Type 0 where
  pub world : World
  pub messages : List ChatMessage
  pub next_id : ℕ
  pub staged : List (Text × Text)
  pub reactions : List Reaction

-- `messageMaxLen`
unfoldable pub message_max_len : ℤ → ℕ
message_max_len (pos n) = if n == 0 then 400 else n
message_max_len (negsuc n) = 400

-- `readLimitBytes`
unfoldable pub read_limit_bytes : ℤ → ℕ
unfolding message_max_len
read_limit_bytes max_len =
    let limit = message_max_len max_len * 4 + 1024 in if ltb limit 4096 then 4096 else limit

abbrev pub is_address : (ℕ → ℕ) → Text → Bool
is_address lower word =
    has_prefix (codes "http://") (to_lower lower word)
    || has_prefix (codes "https://") (to_lower lower word)

-- `attachmentComment`
unfoldable pub attachment_comment : (ℕ → ℕ) → Text → Text × Bool
attachment_comment lower body = (
  trim_space (join_words (keep (λ w. not (is_address lower w)) (fields body))),
  any (is_address lower) (fields body),
)

unfoldable pub refreshed : Option (Option Speaker × Bool) → Client → Client
refreshed none c = c
refreshed (some (speaker, ghost)) c = record c {
  user = record c.user { tts_voicevox_speaker = speaker; ghost_mode = ghost };
}

-- The client with the settings that the database holds now.
unfoldable pub refresh_user : Desk → Client → Client
unfolding refreshed
refresh_user desk c = refreshed (desk.live c.user.id) c

-- The messages of a channel, the latest first.
abbrev pub messages_of : ℕ → List ChatMessage → List ChatMessage
messages_of id ms = keep (λ m. m.channel_id == id) ms

abbrev pub posted_last : ℕ → List ChatMessage → Bool
posted_last user [] = false
posted_last user (m ∷ ms) = m.user_id == user

unfoldable pub repeats : Option PostPolicy → Client → Board → Bool
repeats none c b = false
repeats (some p) c b =
    p.no_consecutive_posts && posted_last c.user.id (messages_of c.channel_id b.messages)

-- `GetChannelRepostGuard` refuses the post.
unfoldable pub is_repost : Desk → Env → Client → Board → Bool
unfolding repeats
is_repost desk env c b = not (env.fails reading_guard) && repeats (desk.policy c.channel_id) c b

lacks_comment : Option PostPolicy → Text → Bool → Text → Option Text
lacks_comment none comment has_url token = none
lacks_comment (some p) comment has_url token =
    if not p.require_comment_for_attachment || not (is_empty comment)
    then none
    else if not (is_empty token)
    then some (codes "画像にはコメントを添えて投稿してください")
    else if has_url && p.url_linkify_enabled
    then some (codes "URLにはコメントを添えて投稿してください")
    else none

-- The checks before the token of the picture is used up, on the trimmed text.
unfoldable pub refusal : Desk → Env → Client → Text → Text → Board → Option Text
unfolding is_repost lacks_comment
refusal desk env c body token b =
    let (comment, has_url) = attachment_comment desk.lower body in
    if c.user.ghost_mode
    then some (codes "ゴーストモード中は書き込めません")
    else if ltb (message_max_len desk.max_message_len) (length body)
    then some (codes "message body is too long")
    else if is_repost desk env c b
    then some (codes "自分以外の誰かが書き込むまで続けて書き込めません")
    else if env.fails reading_policy
    then none
    else lacks_comment (desk.policy c.channel_id) comment has_url token

pub data Attached : Type 0 where
  nothing gone : Attached
  image : StagedImage → Attached

-- The checks on a decoded upload.
pub checked : Client → Option StagedImage → Attached
checked c none = gone
checked c (some i) =
    if not (i.user_id == c.user.id) || not (i.channel_id == c.channel_id) || is_empty i.storage_path
    then gone
    else image i

unfoldable pub taken : Desk → Client → Text → Option Text → Board → Board × Attached
taken desk c token none b = (b, gone)
taken desk c token (some payload) b =
    (record b { staged = delete token b.staged }, checked c (desk.decode payload))

-- `resolveImage`; an upload is taken at most once.
unfoldable pub resolve_image : Desk → Env → Client → Text → Board → Board × Attached
unfolding taken checked
resolve_image desk env c token b =
    let key = trim_space token in
    if is_empty key || not desk.has_images
    then (b, nothing)
    else if env.fails taking_upload
    then (b, gone)
    else taken desk c key (lookup key b.staged) b
