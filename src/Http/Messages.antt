-- ===== src/Http/Messages.antt =====
-- httpserver/routes.go: deleting one message (`deleteChannelMessage`, `adminDeleteMessage`,
-- `afterMessageDeleted`), with the statement `DeleteChatMessageByID`.
pub mod Deletion
use mamechat.Prelude.{
  ℕ, suc, Bool, true, false, not, ◌&&◌, ◌||◌, Option, none, some, List, [], ◌∷◌, Text, ℤ, pos,
  negsuc, ◌==◌, keep, lookup, parse_int, codes, decimal, if◌then◌else◌,
}
use mamechat.Chat.User.{UserSnapshot}
use mamechat.Chat.Message.{ChatMessage}
use mamechat.Chat.Notices.{message_deleted}
use mamechat.Chat.Admission.{Answered, found, no_rows, failed}
use mamechat.Chat.Hub.{
  World, Env, noted, publish, image_deleted, deleting_message, reading_channel, reading_message,
}
use mamechat.Chat.Post.{Board}
use mamechat.Store.{ChannelRow, Table}
use mamechat.Http.{
  Response, success, bad_request, unauthorized, forbidden, not_found, internal_error,
}
use mamechat.Http.Manager.{is_manager}
use mamechat.Http.Channels.{require_admin}

-- `GetChatMessageByID`
unfoldable pub message_of : ℕ → List ChatMessage → Option ChatMessage
message_of id [] = none
message_of id (m ∷ ms) = if m.id == id then some m else message_of id ms

unfoldable pub slug_of : ℕ → Table → Option Text
slug_of id [] = none
slug_of id ((slug, row) ∷ t) = if row.id == id then some slug else slug_of id t

-- The board without a message; the reactions to it go with it.
abbrev pub removed_from : ℕ → Board → Board
removed_from id b = record b {
  messages = keep (λ m. not (m.id == id)) b.messages;
  reactions = keep (λ r. not (r.message_id == id)) b.reactions;
}

pub taken_out : ℕ → Board → Option ChatMessage → Option Text → Board × Answered (ChatMessage × Text)
taken_out id b none slug = (b, no_rows)
taken_out id b (some m) none = (b, no_rows)
taken_out id b (some m) (some slug) = (removed_from id b, found (m, slug))

pub with_channel : ℕ → Board → Option ChatMessage → Board × Answered (ChatMessage × Text)
with_channel id b none = (b, no_rows)
with_channel id b (some m) = taken_out id b (some m) (slug_of m.channel_id b.world.table)

-- `DeleteChatMessageByID`
unfoldable pub delete_chat_message_by_id : Env → ℕ → Board → Board × Answered (ChatMessage × Text)
delete_chat_message_by_id env id b =
    if env.fails deleting_message then (b, failed) else with_channel id b (message_of id b.messages)

image_removed : Option Text → World → World
image_removed none w = w
image_removed (some path) w = noted (image_deleted path) w

-- `afterMessageDeleted`
unfoldable pub after_message_deleted : Env → ChatMessage → Text → World → World
unfolding image_removed
after_message_deleted env m slug w =
    (publish env slug
      (message_deleted env.time_format env.now (decimal m.id) (decimal m.channel_id) slug)
      (image_removed m.image_path w)).0

pub answer_deleted : Env → Board × Answered (ChatMessage × Text) → Board × Response
answer_deleted env (b, failed) = (b, internal_error (codes "failed to delete message"))
answer_deleted env (b, no_rows) = (b, not_found (codes "message not found"))
answer_deleted env (b, found (m, slug)) =
    (record b { world = after_message_deleted env m slug b.world }, success)

-- The identifier of a path, if it is a positive number.
pub positive_id : Option ℤ → Option ℕ
positive_id none = none
positive_id (some (negsuc n)) = none
positive_id (some (pos n)) = if n == 0 then none else some n

-- The author, the owner of the channel, and administrators.
unfoldable pub may_delete : UserSnapshot → ChannelRow → ChatMessage → Bool
may_delete user row m = m.user_id == user.id || is_manager user row

pub delete_in : Env → UserSnapshot → ℕ → ChannelRow → Option ChatMessage → Board → Board × Response
delete_in env user id row none b = (b, not_found (codes "message not found"))
delete_in env user id row (some m) b =
    if not (m.channel_id == row.id)
    then (b, not_found (codes "message not found"))
    else if not (may_delete user row m)
    then (b, forbidden (codes "you cannot delete this message"))
    else answer_deleted env (delete_chat_message_by_id env id b)

pub delete_from : Env → UserSnapshot → ℕ → Option ChannelRow → Board → Board × Response
delete_from env user id none b = (b, not_found (codes "channel not found"))
delete_from env user id (some row) b =
    if env.fails reading_message
    then (b, internal_error (codes "failed to delete message"))
    else delete_in env user id row (message_of id b.messages) b

pub delete_as : Env → UserSnapshot → Option ℕ → Text → Board → Board × Response
delete_as env user none slug b = (b, bad_request (codes "invalid message id"))
delete_as env user (some id) slug b =
    if env.fails reading_channel
    then (b, internal_error (codes "failed to delete message"))
    else delete_from env user id (lookup slug b.world.table) b

-- `deleteChannelMessage`, of a message with the identifier `raw` in the channel `slug`.
unfoldable pub delete_channel_message :
    Env → Option UserSnapshot → Text → Text → Board → Board × Response
delete_channel_message env none slug raw b = (b, unauthorized)
delete_channel_message env (some user) slug raw b =
    delete_as env user (positive_id (parse_int raw)) slug b

unfoldable pub admin_delete_id : Env → Option Response → Option ℕ → Board → Board × Response
admin_delete_id env (some refusal) id b = (b, refusal)
admin_delete_id env none none b = (b, bad_request (codes "invalid message id"))
admin_delete_id env none (some id) b = answer_deleted env (delete_chat_message_by_id env id b)

-- `adminDeleteMessage`
unfoldable pub admin_delete_message : Env → Option UserSnapshot → Text → Board → Board × Response
admin_delete_message env session raw b =
    admin_delete_id env (require_admin session) (positive_id (parse_int raw)) b
