-- ===== src/Chat/Handler/Alternation.antt =====
-- chat/websocket.go: a channel in which nobody may post twice in a row.
use mamechat.Prelude.{
  ℕ, ◌≡◌, sym, ◌∙◌, inl, inr, true, false, none, some, List, [], ◌∷◌, Text, ==_iff, arith, subst,
}
use mamechat.Strings.{trim_space}
use mamechat.Chat.User.{Client}
use mamechat.Chat.Message.{ChatMessage}
use mamechat.Chat.Hub.{Env, reading_guard}
use mamechat.Chat.Post.{
  Desk, Board, PostPolicy, messages_of, posted_last, refresh_user, repeats, is_repost, refusal,
}
use mamechat.Chat.Handler.{handle_chat_message}
use mamechat.Chat.Handler.Stored.{post_checked-Grows, refresh_user-SameClient}

-- No two messages in a row are by the same user.
abbrev pub Alternates : List ChatMessage → Type 0
Alternates [] = Unit
Alternates (m ∷ ms) = (posted_last m.user_id ms ≡ false) × Alternates ms

refusal-is_repost :
    (desk : Desk) (env : Env) (c : Client) (body token : Text) (b : Board)
    → refusal desk env c body token b ≡ none
    → is_repost desk env c b ≡ false
unfolding refusal
refusal-is_repost desk env c body token b h = ground arith

posted_last_of_is_repost :
    (desk : Desk) (env : Env) (c : Client) (b : Board) (p : PostPolicy) (id : ℕ)
    → c.channel_id ≡ id
    → is_repost desk env c b ≡ false
    → env.fails reading_guard ≡ false
    → desk.policy id ≡ some p
    → p.no_consecutive_posts ≡ true
    → posted_last c.user.id (messages_of id b.messages) ≡ false
unfolding is_repost repeats
posted_last_of_is_repost desk env c b p id same h read policy strict =
    rw (same, policy, strict, read) at h

added-Alternates :
    (id user : ℕ) (m : ChatMessage) (ms : List ChatMessage)
    → m.channel_id ≡ id
    → m.user_id ≡ user
    → posted_last user (messages_of id ms) ≡ false
    → Alternates (messages_of id ms)
    → Alternates (messages_of id (m ∷ ms))
added-Alternates id user m ms here by first h =
    rw ((==_iff m.channel_id id).1 here)
      (subst (λ u. posted_last u (messages_of id ms) ≡ false) (sym by) first, h)

-- In a channel that forbids consecutive posts, no post makes two messages in a row of the same
-- user, as long as the guard can be read.
pub handle_chat_message-Alternates :
    (desk : Desk) (env : Env) (c : Client) (body token : Text) (b : Board) (p : PostPolicy)
    → env.fails reading_guard ≡ false
    → desk.policy c.channel_id ≡ some p
    → p.no_consecutive_posts ≡ true
    → Alternates (messages_of c.channel_id b.messages)
    → Alternates (messages_of c.channel_id (handle_chat_message desk env c body token b).messages)
unfolding handle_chat_message
handle_chat_message-Alternates desk env c body token b p read policy strict h =
    let d = refresh_user desk c in
    let same = refresh_user-SameClient desk c in
    let text = trim_space body in
    elim (post_checked-Grows desk env d text token (refusal desk env d text token b) b) [
      | inl e ↦ subst (λ ms. Alternates (messages_of c.channel_id ms)) (sym e) h
      | inr (m, e, (free, s)) ↦
          subst (λ ms. Alternates (messages_of c.channel_id ms)) (sym e)
            (added-Alternates c.channel_id d.user.id m b.messages (s.channel ∙ same.channel)
              s.author
              (posted_last_of_is_repost desk env d b p c.channel_id same.channel
                (refusal-is_repost desk env d text token b free) read policy strict)
              h)
    ]
