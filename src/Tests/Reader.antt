-- ===== src/Tests/Reader.antt =====
-- The theorems on what clients send, one frame after the other.
use mamechat.Prelude.{◌≡◌, ◌⊎◌, refl, true, false, some, List, [], ◌∷◌, Text, codes, arith}
use mamechat.Strings.{trim_space, byte_len}
use mamechat.Chat.User.{Client}
use mamechat.Chat.Message.{ClientMessage, chat_message, message_from_db}
use mamechat.Chat.Message.Reactions.{Reaction, toggle_reaction}
use mamechat.Chat.Hub.{Env}
use mamechat.Chat.Post.{messages_of}
use mamechat.Chat.Handler.Alternation.{Alternates}
use mamechat.Chat.Reader.{
  Frame, request, refresh_ghost, is_emoji, channel_of, handle_reaction_toggle, run_turns,
}
use mamechat.Chat.Reader.Toggled.{
  IsAllowed, handle_reaction_toggle-IsAllowed, handle_reaction_toggle_turns,
}
use mamechat.Chat.Reader.Turns.{run_turns-Alternates}
use mamechat.Tests.{client, node, plain_format, slug}
use mamechat.Tests.Posts.{desk, board, strict, first_post}

abbrev post : Text → ClientMessage
post body = record {
  type = chat_message;
  body = body;
  image_token = [];
  message_id = [];
  emoji = [];
}

abbrev turns : List (Env × Client × Frame)
turns =
    (node, client 8 3, request (post (codes "hi")))
    ∷ (node, client 8 3, request (post (codes "again")))
    ∷ []

run_turns-Alternates_example : Alternates (messages_of 5 (run_turns desk turns board).messages)
run_turns-Alternates_example =
    run_turns-Alternates desk 5 strict refl refl turns board (refl, (refl, tt)) (refl, tt)

handle_reaction_toggle-IsAllowed_example :
    ((handle_reaction_toggle desk node (client 8 3) (codes "1") (codes "+") board).reactions ≡ [])
    ⊎ ((r : Reaction) × ((handle_reaction_toggle desk node
            (client 8 3)
            (codes "1")
            (codes "+")
            board).reactions
          ≡ toggle_reaction r [])
        × IsAllowed desk (client 8 3) board r)
handle_reaction_toggle-IsAllowed_example =
    handle_reaction_toggle-IsAllowed desk node (client 8 3) (codes "1") (codes "+") board

seen : (refresh_ghost desk (client 8 3)).user.ghost_mode ≡ false
unfolding refresh_ghost
seen = refl

symbol : is_emoji (trim_space (codes "+")) ≡ true
unfolding is_emoji trim_space byte_len
symbol = refl

place : channel_of 1 board.messages ≡ some 5
unfolding channel_of
place = refl

handle_reaction_toggle_turns_example :
    (handle_reaction_toggle desk node
      (client 8 3)
      (message_from_db plain_format slug first_post).id
      (codes "+")
      board).reactions
    ≡ toggle_reaction (record { message_id = 1; user_id = 3; emoji = trim_space (codes "+") }) []
handle_reaction_toggle_turns_example =
    handle_reaction_toggle_turns desk node (client 8 3) first_post (codes "+") board seen symbol
      (omega arith) place (λ s. refl)
