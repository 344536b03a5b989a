-- ===== src/Chat/Reader/Toggled.antt =====
-- chat/websocket.go: whose reactions a toggle may turn over.
use mamechat.Prelude.{
  ℕ, ◌≡◌, ◌≤◌, refl, ap, ◌∙◌, sym, ◌⊎◌, inl, inr, Bool, true, false, not, ◌||◌, ◌&&◌, Option, none,
  some, [], ◌∷◌, Text, ℤ, pos, negsuc, ◌==◌, ==_iff, ==_refl, Option-cases, parse_int,
  parse_int-decimal, decimal, decimal-Digits, Digits, is_digit, max_int64, arith, Bool-cases,
}
use mamechat.Strings.{is_space, trim_left, trim_right, trim_space}
use mamechat.Chat.Time.{TimeFormat}
use mamechat.Chat.User.{Speaker, Client}
use mamechat.Chat.Message.{ChatMessage, message_from_db}
use mamechat.Chat.Message.Reactions.{Reaction, remove_message_reaction, toggle_reaction}
use mamechat.Chat.Hub.{Env, Service, reading_message, removing_reaction, adding_reaction}
use mamechat.Chat.Post.{Desk, Board}
use mamechat.Chat.Reader.{
  refreshed_ghost, refresh_ghost, is_emoji, channel_of, is_channel, tell_groups, toggle,
  toggle_message, handle_reaction_toggle,
}

-- What holds of a reaction that a client may turn over.
pub record IsAllowed (desk : Desk) (c : Client) (b : Board) (r : Reaction) : Type 0 where
  pub author : r.user_id ≡ c.user.id
  pub place : channel_of r.message_id b.messages ≡ some c.channel_id
  pub symbol : is_emoji r.emoji ≡ true
  pub visible : (refresh_ghost desk c).user.ghost_mode ≡ false

refreshed_ghost-id :
    (o : Option (Option Speaker × Bool)) (c : Client)
    → ((refreshed_ghost o c).user.id ≡ c.user.id)
      × ((refreshed_ghost o c).channel_id ≡ c.channel_id)
unfolding refreshed_ghost
refreshed_ghost-id none c = (refl, refl)
refreshed_ghost-id (some (s, g)) c = (refl, refl)

is_channel→some : (id : ℕ) (o : Option ℕ) → is_channel id o ≡ true → o ≡ some id
unfolding is_channel
is_channel→some id none h = absurd (ground arith)
is_channel→some id (some n) h = ap some ((==_iff n id).0 h)

module _ (desk : Desk) (env : Env) (c : Client) (raw_id : Text) where
  tell_groups-reactions :
      (id : ℕ) (b : Board) → (tell_groups desk env c raw_id id b).reactions ≡ b.reactions
  unfolding tell_groups
  tell_groups-reactions id b = ground arith

  toggle-reactions :
      (r : Reaction) (b : Board)
      → ((toggle desk env c raw_id r b).reactions ≡ b.reactions)
        ⊎ ((toggle desk env c raw_id r b).reactions ≡ toggle_reaction r b.reactions)
  unfolding toggle
  toggle-reactions r b =
      elim (Bool-cases (
        env.fails removing_reaction
        || ((remove_message_reaction r b.reactions).1 == 0 && env.fails adding_reaction))) [
          | inl e ↦ rw e (inl refl)
          | inr e ↦ rw e (
              inr (
                tell_groups-reactions r.message_id
                  (record b { reactions = toggle_reaction r b.reactions })))
        ]

  toggle_message-reactions :
      (emoji : Text) (o : Option ℤ) (b : Board)
      → ((toggle_message desk env c raw_id emoji o b).reactions ≡ b.reactions)
        ⊎ ((r : Reaction) × ((toggle_message desk env c raw_id emoji o b).reactions
              ≡ toggle_reaction r b.reactions)
            × (r.user_id ≡ c.user.id)
            × (r.emoji ≡ emoji)
            × (channel_of r.message_id b.messages ≡ some c.channel_id))
  unfolding toggle_message
  toggle_message-reactions emoji none b = inl refl
  toggle_message-reactions emoji (some (negsuc n)) b = inl refl
  toggle_message-reactions emoji (some (pos id)) b =
      let r : Reaction = record { message_id = id; user_id = c.user.id; emoji = emoji } in
      elim (Bool-cases
        (env.fails reading_message || not (is_channel c.channel_id (channel_of id b.messages)))) [
          | inl e ↦ rw e (inl refl)
          | inr e ↦ rw e (elim (toggle-reactions r b) [
            | inl same ↦ inl same
            | inr turned ↦ inr (
              r,
              turned,
              refl,
              refl,
              is_channel→some c.channel_id (channel_of id b.messages) (ground arith),
            )
          ])
        ]

-- Whatever a client sends as a toggle, the reactions stay as they are, or exactly one is turned
-- over: it is the user's own, on a message of the channel, with an emoji of at most 8 characters
-- and 32 bytes, and the user is not a ghost.
pub handle_reaction_toggle-IsAllowed :
    (desk : Desk) (env : Env) (c : Client) (raw_id emoji : Text) (b : Board)
    → ((handle_reaction_toggle desk env c raw_id emoji b).reactions ≡ b.reactions)
      ⊎ ((r : Reaction) × ((handle_reaction_toggle desk env c raw_id emoji b).reactions
            ≡ toggle_reaction r b.reactions)
          × IsAllowed desk c b r)
unfolding handle_reaction_toggle
handle_reaction_toggle-IsAllowed desk env c raw_id emoji b =
    let d = refresh_ghost desk c in
    let (user, channel) : ((d.user.id ≡ c.user.id) × (d.channel_id ≡ c.channel_id)) =
      unfold refresh_ghost in refreshed_ghost-id (desk.live c.user.id) c in
    let symbol = trim_space emoji in
    elim (Bool-cases d.user.ghost_mode) [
      | inl e ↦ rw e (inl refl)
      | inr e ↦ elim (Bool-cases (is_emoji symbol)) [
        | inr g ↦ rw (e, g) (inl refl)
        | inl g ↦
            rw (e, g)
              (elim (toggle_message-reactions desk env d raw_id symbol
                (parse_int (trim_space raw_id)) b) [
                  | inl same ↦ inl same
                  | inr (r, turned, author, emoji_is, place) ↦ inr (
                    r,
                    turned,
                    record {
                      author = author ∙ user;
                      place = place ∙ ap some channel;
                      symbol = ap is_emoji emoji_is ∙ g;
                      visible = e;
                    },
                  )
                ])
      ]
    ]

digit_not_space : (c : ℕ) → is_digit c ≡ true → is_space c ≡ false
unfolding is_space
digit_not_space c h = ground arith

trim_right-Digits : (s : Text) → Digits s → trim_right s ≡ s
unfolding trim_right
trim_right-Digits [] d = refl
trim_right-Digits (c ∷ s) (d, ds) = ground (arith, trim_right-Digits s ds, digit_not_space c d)

trim_space-Digits : (s : Text) → Digits s → trim_space s ≡ s
unfolding trim_space trim_left
trim_space-Digits [] d = refl
trim_space-Digits (c ∷ s) (d, ds) = rw (digit_not_space c d) (trim_right-Digits (c ∷ s) (d, ds))

message_from_db-id :
    (f : TimeFormat) (slug : Text) (m : ChatMessage) → (message_from_db f slug m).id ≡ decimal m.id
unfolding message_from_db
message_from_db-id f slug m = elim (Option-cases m.image_path) [
  | inl e ↦ rw e refl
  | inr (path, e) ↦ rw e (ground arith)
]

toggle_message_turns :
    (desk : Desk) (env : Env) (c : Client) (raw_id emoji : Text) (id : ℕ) (b : Board)
    → channel_of id b.messages ≡ some c.channel_id
    → ((s : Service) → env.fails s ≡ false)
    → (toggle_message desk env c raw_id emoji (some (pos id)) b).reactions
      ≡ toggle_reaction (record { message_id = id; user_id = c.user.id; emoji = emoji }) b.reactions
unfolding toggle_message toggle is_channel
toggle_message_turns desk env c raw_id emoji id b place works =
    let r : Reaction = record { message_id = id; user_id = c.user.id; emoji = emoji } in
    rw
      (
        works reading_message,
        place,
        ==_refl c.channel_id,
        works removing_reaction,
        works adding_reaction,
      )
      (ground (
        arith,
        tell_groups-reactions desk env c raw_id id
            (record b { reactions = toggle_reaction r b.reactions }),
      ))

-- A toggle of an emoji on a message of the channel, under the identifier that the message was sent
-- with, turns the user's reaction over, if the user is not a ghost, the emoji is short enough, the
-- identifier is a 64-bit integer and the services do not fail.
pub handle_reaction_toggle_turns :
    (desk : Desk) (env : Env) (c : Client) (m : ChatMessage) (emoji : Text) (b : Board)
    → (refresh_ghost desk c).user.ghost_mode ≡ false
    → is_emoji (trim_space emoji) ≡ true
    → m.id ≤ max_int64
    → channel_of m.id b.messages ≡ some c.channel_id
    → ((s : Service) → env.fails s ≡ false)
    → (handle_reaction_toggle desk env c
        (message_from_db env.time_format c.channel_slug m).id
        emoji
        b).reactions
      ≡ toggle_reaction
          (record { message_id = m.id; user_id = c.user.id; emoji = trim_space emoji })
          b.reactions
unfolding handle_reaction_toggle
handle_reaction_toggle_turns desk env c m emoji b seen symbol small place works =
    let d = refresh_ghost desk c in
    let (user, channel) : ((d.user.id ≡ c.user.id) × (d.channel_id ≡ c.channel_id)) =
      unfold refresh_ghost in refreshed_ghost-id (desk.live c.user.id) c in
    let raw = (message_from_db env.time_format c.channel_slug m).id in
    let parsed : parse_int (trim_space raw) ≡ some (pos m.id) =
      ap (λ s. parse_int (trim_space s)) (message_from_db-id env.time_format c.channel_slug m)
      ∙ ap parse_int (trim_space-Digits (decimal m.id) (decimal-Digits m.id))
      ∙ parse_int-decimal m.id small in
    rw (seen, symbol, parsed)
      (toggle_message_turns desk env d raw (trim_space emoji) m.id b (place ∙ ap some (sym channel))
          works
        ∙ ap
            (λ u.
              toggle_reaction (record { message_id = m.id; user_id = u; emoji = trim_space emoji })
                b.reactions)
            user)
