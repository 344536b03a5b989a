-- ===== src/Chat/Reader/Turns.antt =====
-- chat/websocket.go: what holds of the messages of a channel while many connections are served.
use mamechat.Prelude.{
  ℕ, ◌≡◌, refl, sym, subst, ap, ◌∙◌, inl, inr, true, false, Option, none, some, ℤ, pos, negsuc,
  parse_int, arith, List, [], ◌∷◌, Text, ◌==◌, ==_iff, All, Bool-cases,
}
use mamechat.Chat.User.{Client}
use mamechat.Chat.Message.{
  ClientMessage, ClientMessageType, ping, presence_beacon, chat_message, reaction_toggle, other,
}
use mamechat.Strings.{trim_space}
use mamechat.Chat.Message.Reactions.{Reaction, toggle_reaction}
use mamechat.Chat.Hub.{Env, reading_guard}
use mamechat.Chat.Post.{Desk, Board, PostPolicy, messages_of}
use mamechat.Chat.Handler.{handle_chat_message}
use mamechat.Chat.Handler.Stored.{handle_chat_message-IsPost}
use mamechat.Chat.Handler.Alternation.{Alternates, handle_chat_message-Alternates}
use mamechat.Chat.Reader.{
  Frame, binary, broken, request, tell_groups, toggle, toggle_message, refresh_ghost,
  handle_reaction_toggle, answer, read_frame, run_turns,
}

tell_groups-messages :
    (desk : Desk) (env : Env) (c : Client) (raw_id : Text) (id : ℕ) (b : Board)
    → (tell_groups desk env c raw_id id b).messages ≡ b.messages
unfolding tell_groups
tell_groups-messages desk env c raw_id id b = ground arith

toggle-messages :
    (desk : Desk) (env : Env) (c : Client) (raw_id : Text) (r : Reaction) (b : Board)
    → (toggle desk env c raw_id r b).messages ≡ b.messages
unfolding toggle
toggle-messages desk env c raw_id r b = ground (
  arith,
  tell_groups-messages desk env c raw_id r.message_id
      (record b { reactions = toggle_reaction r b.reactions }),
)

toggle_message-messages :
    (desk : Desk) (env : Env) (c : Client) (raw_id emoji : Text) (o : Option ℤ) (b : Board)
    → (toggle_message desk env c raw_id emoji o b).messages ≡ b.messages
unfolding toggle_message
toggle_message-messages desk env c raw_id emoji none b = refl
toggle_message-messages desk env c raw_id emoji (some (negsuc n)) b = refl
toggle_message-messages desk env c raw_id emoji (some (pos id)) b = ground (
  arith,
  toggle-messages desk env c raw_id (record { message_id = id; user_id = c.user.id; emoji = emoji })
      b,
)

-- A toggle stores no message.
handle_reaction_toggle-messages :
    (desk : Desk) (env : Env) (c : Client) (raw_id emoji : Text) (b : Board)
    → (handle_reaction_toggle desk env c raw_id emoji b).messages ≡ b.messages
unfolding handle_reaction_toggle
handle_reaction_toggle-messages desk env c raw_id emoji b = ground (
  arith,
  toggle_message-messages desk env (refresh_ghost desk c) raw_id (trim_space emoji)
      (parse_int (trim_space raw_id)) b,
)

module _ (desk : Desk) (id : ℕ) (p : PostPolicy) (policy : desk.policy id ≡ some p)
    (strict : p.no_consecutive_posts ≡ true) where
  post-Alternates :
      (env : Env) (c : Client) (body token : Text) (b : Board)
      → env.fails reading_guard ≡ false
      → Alternates (messages_of id b.messages)
      → Alternates (messages_of id (handle_chat_message desk env c body token b).messages)
  post-Alternates env c body token b read h = elim (Bool-cases (c.channel_id == id)) [
    | inl e ↦
        let same = (==_iff c.channel_id id).0 e in
        subst
          (λ k.
            Alternates (messages_of k b.messages)
            → Alternates (messages_of k (handle_chat_message desk env c body token b).messages))
          same
          (λ old.
            handle_chat_message-Alternates desk env c body token b p read
              (ap desk.policy same ∙ policy) strict old)
          h
    | inr e ↦ elim (handle_chat_message-IsPost desk env c body token b) [
      | inl same ↦ subst (λ ms. Alternates (messages_of id ms)) (sym same) h
      | inr (m, grown, post) ↦
          subst (λ ms. Alternates (messages_of id ms)) (sym grown)
            (rw (ap (λ k. k == id) post.channel ∙ e) h)
    ]
  ]

  answer-Alternates :
      (env : Env) (c : Client) (msg : ClientMessage) (t : ClientMessageType) (b : Board)
      → env.fails reading_guard ≡ false
      → Alternates (messages_of id b.messages)
      → Alternates (messages_of id (answer desk env c msg t b).1.messages)
  unfolding answer
  answer-Alternates env c msg ping b read h = h
  answer-Alternates env c msg presence_beacon b read h = h
  answer-Alternates env c msg chat_message b read h =
      post-Alternates env c msg.body msg.image_token b read h
  answer-Alternates env c msg reaction_toggle b read h =
      subst (λ ms. Alternates (messages_of id ms))
        (sym (handle_reaction_toggle-messages desk env c msg.message_id msg.emoji b)) h
  answer-Alternates env c msg other b read h = h

  read_frame-Alternates :
      (env : Env) (c : Client) (f : Frame) (b : Board)
      → env.fails reading_guard ≡ false
      → Alternates (messages_of id b.messages)
      → Alternates (messages_of id (read_frame desk env c f b).1.messages)
  unfolding read_frame
  read_frame-Alternates env c binary b read h = h
  read_frame-Alternates env c broken b read h = h
  read_frame-Alternates env c (request msg) b read h = answer-Alternates env c msg msg.type b read h

  -- The turns in which the guard can be read.
  abbrev pub CanRead : Env × Client × Frame → Type 0
  CanRead (env, c, f) = env.fails reading_guard ≡ false

  -- Whatever the connections of all channels send, one turn after the other, no two messages in a
  -- row of a channel that forbids consecutive posts are by the same user, as long as the guard can
  -- be read and if it was so before.
  pub run_turns-Alternates :
      (turns : List (Env × Client × Frame)) (b : Board)
      → All CanRead turns
      → Alternates (messages_of id b.messages)
      → Alternates (messages_of id (run_turns desk turns b).messages)
  unfolding run_turns
  run_turns-Alternates [] b read h = h
  run_turns-Alternates ((env, c, f) ∷ turns) b (now, later) h =
      run_turns-Alternates turns (read_frame desk env c f b).1 later
        (read_frame-Alternates env c f b now h)
