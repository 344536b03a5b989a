-- ===== src/Tests/Posts.antt =====
-- The theorems on posts, at a channel that forbids to post twice in a row.
use mamechat.Prelude.{◌≡◌, refl, true, false, none, some, [], ◌∷◌, pos, codes, lookup}
use mamechat.Strings.{trim_space}
use mamechat.Chat.Message.{ChatMessage}
use mamechat.Chat.Post.{StagedImage, PostPolicy, Desk, Board, image, resolve_image}
use mamechat.Chat.Post.Guards.{IsOwn, resolve_image-IsOwn}
use mamechat.Chat.Handler.{handle_chat_message}
use mamechat.Chat.Handler.Stored.{Grows, IsPost, handle_chat_message-IsPost}
use mamechat.Tests.{noon, client, node, world}

abbrev pub strict : PostPolicy
strict = record {
  no_consecutive_posts = true;
  require_comment_for_attachment = false;
  url_linkify_enabled = true;
}

abbrev pub picture : StagedImage
picture = record {
  channel_id = 5;
  user_id = 2;
  storage_path = codes "a.png";
  width = pos 640;
  height = pos 480;
}

abbrev pub desk : Desk
desk = record {
  max_message_len = pos 0;
  has_tts = false;
  has_images = true;
  lower = λ c. c;
  live = λ id. some (none, false);
  policy = λ id. some strict;
  decode = λ payload. some picture;
  reaction_rows = λ reactions id. [];
}

abbrev pub first_post : ChatMessage
first_post = record {
  id = 1;
  channel_id = 5;
  user_id = 2;
  body = codes "hello";
  user_display_name = codes "Mame";
  user_handle = none;
  user_avatar_url = none;
  user_provider = none;
  user_tts_voicevox_speaker_uuid = none;
  user_tts_voicevox_speaker_name = none;
  user_tts_voicevox_speaker_url = none;
  created_at = noon;
  image_path = none;
  image_width = none;
  image_height = none;
}

abbrev pub board : Board
board = record {
  world = world;
  messages = first_post ∷ [];
  next_id = 2;
  staged = (codes "token", codes "{}") ∷ [];
  reactions = [];
}

is_image : (resolve_image desk node (client 7 2) (codes "token") board).1 ≡ image picture
unfolding resolve_image trim_space lookup
is_image = refl

resolve_image-IsOwn_example :
    IsOwn (client 7 2) picture
    × (lookup
          (trim_space (codes "token"))
          (resolve_image desk node (client 7 2) (codes "token") board).0.staged
        ≡ none)
resolve_image-IsOwn_example =
    resolve_image-IsOwn desk node (client 7 2) (codes "token") board picture is_image

handle_chat_message-IsPost_example :
    Grows
      (IsPost desk (client 7 3) (codes "hi"))
      (first_post ∷ [])
      (handle_chat_message desk node (client 7 3) (codes "hi") [] board).messages
handle_chat_message-IsPost_example =
    handle_chat_message-IsPost desk node (client 7 3) (codes "hi") [] board
