-- ===== src/Chat/Handler/Stored.antt =====
-- chat/websocket.go: what a posted message is.
use mamechat.Prelude.{
  ℕ, ◌≤◌, ◌≡◌, refl, ap, sym, subst, ◌∙◌, ◌⊎◌, inl, inr, Bool, true, false, Option, none, some,
  List, ◌∷◌, Text, length, is_some, arith, Bool-cases,
}
use mamechat.Strings.{is_empty, trim_space}
use mamechat.Chat.User.{Speaker, Client}
use mamechat.Chat.Message.{ChatMessage}
use mamechat.Chat.Hub.{Env, saving_message}
use mamechat.Chat.Post.{
  StagedImage, Desk, Board, message_max_len, refreshed, refresh_user, refusal, Attached, nothing,
  gone, image, taken, resolve_image,
}
use mamechat.Chat.Handler.{new_message, store, finish, post_checked, handle_chat_message}

-- What holds of a message that a client may post with a text.
pub record IsPost (desk : Desk) (c : Client) (body : Text) (m : ChatMessage) : Type 0 where
  pub author : m.user_id ≡ c.user.id
  pub channel : m.channel_id ≡ c.channel_id
  pub text : m.body ≡ trim_space body
  pub short : length m.body ≤ message_max_len desk.max_message_len
  pub content : (is_empty m.body ≡ false) ⊎ (is_some m.image_path ≡ true)
  pub visible : (refresh_user desk c).user.ghost_mode ≡ false

-- The client is the same but for the settings.
pub record SameClient (c d : Client) : Type 0 where
  pub user : d.user.id ≡ c.user.id
  pub channel : d.channel_id ≡ c.channel_id

refreshed-SameClient :
    (o : Option (Option Speaker × Bool)) (c : Client) → SameClient c (refreshed o c)
unfolding refreshed
refreshed-SameClient none c = record { user = refl; channel = refl }
refreshed-SameClient (some (s, g)) c = record { user = refl; channel = refl }

pub refresh_user-SameClient : (desk : Desk) (c : Client) → SameClient c (refresh_user desk c)
unfolding refresh_user
refresh_user-SameClient desk c = refreshed-SameClient (desk.live c.user.id) c

taken-messages :
    (desk : Desk) (c : Client) (token : Text) (o : Option Text) (b : Board)
    → (taken desk c token o b).0.messages ≡ b.messages
unfolding taken
taken-messages desk c token none b = refl
taken-messages desk c token (some p) b = refl

pub resolve_image-messages :
    (desk : Desk) (env : Env) (c : Client) (token : Text) (b : Board)
    → (resolve_image desk env c token b).0.messages ≡ b.messages
unfolding resolve_image
resolve_image-messages desk env c token b = ground (arith, taken-messages desk c)

-- A message that a checked post stores.
pub record IsStored (c : Client) (body : Text) (m : ChatMessage) : Type 0 where
  pub author : m.user_id ≡ c.user.id
  pub channel : m.channel_id ≡ c.channel_id
  pub text : m.body ≡ body
  pub content : (is_empty body ≡ false) ⊎ (is_some m.image_path ≡ true)

-- The messages are as before, or one has been added that has a property.
abbrev pub Grows : (ChatMessage → Type 0) → List ChatMessage → List ChatMessage → Type 0
Grows P old new = (new ≡ old) ⊎ ((m : ChatMessage) × (new ≡ m ∷ old) × P m)

new_message-IsStored :
    (env : Env) (c : Client) (body : Text) (img : Option StagedImage) (id : ℕ)
    → (is_empty body ≡ false) ⊎ (is_some img ≡ true)
    → IsStored c body (new_message env c body img id)
unfolding new_message
new_message-IsStored env c body none id h = ground arith
new_message-IsStored env c body (some i) id h = ground arith

module _ (desk : Desk) (env : Env) (c : Client) (body token : Text) where
  store-Grows :
      (img : Option StagedImage) (b : Board)
      → (is_empty body ≡ false) ⊎ (is_some img ≡ true)
      → Grows (IsStored c body) b.messages (store desk env c body token img b).messages
  unfolding store
  store-Grows img b h = elim (Bool-cases (env.fails saving_message)) [
    | inl e ↦ rw e (inl refl)
    | inr e ↦ rw e (
        inr (
          new_message env c body img b.next_id,
          refl,
          new_message-IsStored env c body img b.next_id h,
        ))
  ]

  finish-Grows :
      (a : Attached) (b : Board)
      → Grows (IsStored c body) b.messages (finish desk env c body token a b).messages
  unfolding finish
  finish-Grows nothing b = elim (Bool-cases (is_empty body)) [
    | inl e ↦ rw e (inl refl)
    | inr e ↦ rw e (store-Grows none b (inl e))
  ]
  finish-Grows gone b = inl refl
  finish-Grows (image i) b = store-Grows (some i) b (inr refl)

  -- A post that is not refused adds at most one message; one that is refused adds none.
  pub post_checked-Grows :
      (o : Option Text) (b : Board)
      → Grows
          (λ m. (o ≡ none) × IsStored c body m)
          b.messages
          (post_checked desk env c body token o b).messages
  unfolding post_checked
  post_checked-Grows (some text) b = inl refl
  post_checked-Grows none b =
      elim (finish-Grows (resolve_image desk env c token b).1
        (resolve_image desk env c token b).0) [
          | inl e ↦ inl (e ∙ resolve_image-messages desk env c token b)
          | inr (m, e, s) ↦
              inr (m, e ∙ ap (λ t. m ∷ t) (resolve_image-messages desk env c token b), (refl, s))
        ]

refusal-none :
    (desk : Desk) (env : Env) (c : Client) (body token : Text) (b : Board)
    → refusal desk env c body token b ≡ none
    → (c.user.ghost_mode ≡ false) × (length body ≤ message_max_len desk.max_message_len)
unfolding refusal
refusal-none desk env c body token b h = ground arith

-- Whatever a client sends as a post, the messages stay as they are, or exactly one is added: it is
-- by that user in that channel, its text is the trimmed one and within the limit, it has a text or
-- a picture, and its author is not a ghost.
pub handle_chat_message-IsPost :
    (desk : Desk) (env : Env) (c : Client) (body token : Text) (b : Board)
    → Grows (IsPost desk c body) b.messages (handle_chat_message desk env c body token b).messages
unfolding handle_chat_message
handle_chat_message-IsPost desk env c body token b =
    let d = refresh_user desk c in
    let same = refresh_user-SameClient desk c in
    let text = trim_space body in
    elim (post_checked-Grows desk env d text token (refusal desk env d text token b) b) [
      | inl e ↦ inl e
      | inr (m, e, (free, s)) ↦
          let (seen, short) = refusal-none desk env d text token b free in
          inr (
            m,
            e,
            record {
              author = s.author ∙ same.user;
              channel = s.channel ∙ same.channel;
              text = s.text;
              short =
                  subst (λ t. length t ≤ message_max_len desk.max_message_len) (sym s.text) short;
              content =
                  subst (λ t. (is_empty t ≡ false) ⊎ (is_some m.image_path ≡ true)) (sym s.text)
                    s.content;
              visible = seen;
            },
          )
    ]
