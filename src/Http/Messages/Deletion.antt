-- ===== src/Http/Messages/Deletion.antt =====
-- httpserver/routes.go: who can delete a message, and what goes with it.
use mamechat.Prelude.{
  ℤ, pos, negsuc, ℕ, ◌≤◌, ◌≡◌, refl, true, not, Option, none, some, Text, ◌==◌, ==_iff, keep,
  lookup, parse_int, arith, Bool-cases, Option-cases, ◌⊎◌, inl, inr,
}
use mamechat.Chat.User.{UserSnapshot}
use mamechat.Chat.Message.{ChatMessage}
use mamechat.Chat.Admission.{failed}
use mamechat.Chat.Hub.{Env, deleting_message, reading_channel, reading_message}
use mamechat.Chat.Post.{Board}
use mamechat.Store.{ChannelRow}
use mamechat.Http.{Response}
use mamechat.Http.Channels.{require_admin}
use mamechat.Http.Messages.{
  message_of, slug_of, taken_out, with_channel, delete_chat_message_by_id, answer_deleted,
  positive_id, admin_delete_id, admin_delete_message, may_delete, delete_in, delete_from, delete_as,
  delete_channel_message,
}

-- The message is deleted, with its reactions, and nothing else of the tables has changed.
abbrev pub IsWithout : ℕ → Board → Board → Type 0
IsWithout id b t =
    (t.messages ≡ keep (λ m. not (m.id == id)) b.messages)
    × (t.reactions ≡ keep (λ r. not (r.message_id == id)) b.reactions)
    × (t.next_id ≡ b.next_id)
    × (t.staged ≡ b.staged)

-- Nothing has changed and an error is answered, or the message is deleted.
abbrev pub IsAnswered : ℕ → Board → Board × Response → Type 0
IsAnswered id b result =
    ((result.0 ≡ b) × (400 ≤ result.1.status)) ⊎ (IsWithout id b result.0 × (result.1.status ≡ 200))

with_channel-IsAnswered :
    (env : Env) (id : ℕ) (b : Board) (o : Option ChatMessage)
    → IsAnswered id b (answer_deleted env (with_channel id b o))
unfolding with_channel taken_out answer_deleted
with_channel-IsAnswered env id b none = inl (refl, omega arith)
with_channel-IsAnswered env id b (some m) =
    elim (Option-cases (slug_of m.channel_id b.world.table)) [
      | inl e ↦ rw e (inl (refl, omega arith))
      | inr (slug, e) ↦ rw e (inr ((refl, refl, refl, refl), refl))
    ]

failed-IsAnswered :
    (env : Env) (id : ℕ) (b : Board) → IsAnswered id b (answer_deleted env (b, failed))
unfolding answer_deleted
failed-IsAnswered env id b = inl (refl, omega arith)

delete_chat_message_by_id-IsAnswered :
    (env : Env) (id : ℕ) (b : Board)
    → IsAnswered id b (answer_deleted env (delete_chat_message_by_id env id b))
unfolding delete_chat_message_by_id
delete_chat_message_by_id-IsAnswered env id b = elim (Bool-cases (env.fails deleting_message)) [
  | inl e ↦ rw e (failed-IsAnswered env id b)
  | inr e ↦ rw e (with_channel-IsAnswered env id b (message_of id b.messages))
]

-- What a deletion that is answered with success rests on: the message is in the channel, and the
-- user is its author, the owner of the channel or an administrator.
pub record IsDeletion (session : Option UserSnapshot) (slug raw : Text) (b t : Board) : Type 0 where
  pub user : UserSnapshot
  pub row : ChannelRow
  pub message : ChatMessage
  pub id : ℕ
  pub named : parse_int raw ≡ some (pos id)
  pub signed_in : session ≡ some user
  pub channel : lookup slug b.world.table ≡ some row
  pub there : message_of id b.messages ≡ some message
  pub inside : message.channel_id ≡ row.id
  pub permitted : may_delete user row message ≡ true
  pub without : IsWithout id b t

abbrev pub IsOutcome : Option UserSnapshot → Text → Text → Board → Board × Response → Type 0
IsOutcome session slug raw b result =
    ((result.0 ≡ b) × (400 ≤ result.1.status)) ⊎ IsDeletion session slug raw b result.0

delete_in-IsOutcome :
    (env : Env) (user : UserSnapshot) (id : ℕ) (slug raw : Text) (row : ChannelRow)
    (o : Option ChatMessage) (b : Board)
    → parse_int raw ≡ some (pos id)
    → lookup slug b.world.table ≡ some row
    → message_of id b.messages ≡ o
    → IsOutcome (some user) slug raw b (delete_in env user id row o b)
unfolding delete_in
delete_in-IsOutcome env user id slug raw row none b named stored there = inl (refl, omega arith)
delete_in-IsOutcome env user id slug raw row (some m) b named stored there =
    elim (Bool-cases (m.channel_id == row.id)) [
      | inr e ↦ rw e (inl (refl, omega arith))
      | inl e ↦ elim (Bool-cases (may_delete user row m)) [
        | inr f ↦ rw (e, f) (inl (refl, omega arith))
        | inl f ↦
            rw (e, f)
              (elim (delete_chat_message_by_id-IsAnswered env id b) [
                | inl same ↦ inl same
                | inr (gone, ok) ↦ inr (record {
                  user = user;
                  row = row;
                  message = m;
                  id = id;
                  named = named;
                  signed_in = refl;
                  channel = stored;
                  there = there;
                  inside = (==_iff m.channel_id row.id).0 e;
                  permitted = f;
                  without = gone;
                })
              ])
      ]
    ]

delete_from-IsOutcome :
    (env : Env) (user : UserSnapshot) (id : ℕ) (slug raw : Text) (o : Option ChannelRow) (b : Board)
    → parse_int raw ≡ some (pos id)
    → lookup slug b.world.table ≡ o
    → IsOutcome (some user) slug raw b (delete_from env user id o b)
unfolding delete_from
delete_from-IsOutcome env user id slug raw none b named stored = inl (refl, omega arith)
delete_from-IsOutcome env user id slug raw (some row) b named stored =
    elim (Bool-cases (env.fails reading_message)) [
      | inl e ↦ rw e (inl (refl, omega arith))
      | inr e ↦ rw e (
          delete_in-IsOutcome env user id slug raw row (message_of id b.messages) b named stored
            refl)
    ]

delete_as-IsOutcome :
    (env : Env) (user : UserSnapshot) (o : Option ℕ) (slug raw : Text) (b : Board)
    → ((id : ℕ) → o ≡ some id → parse_int raw ≡ some (pos id))
    → IsOutcome (some user) slug raw b (delete_as env user o slug b)
unfolding delete_as
delete_as-IsOutcome env user none slug raw b named = inl (refl, omega arith)
delete_as-IsOutcome env user (some id) slug raw b named =
    elim (Bool-cases (env.fails reading_channel)) [
      | inl e ↦ rw e (inl (refl, omega arith))
      | inr e ↦ rw e (
          delete_from-IsOutcome env user id slug raw (lookup slug b.world.table) b (named id refl)
            refl)
    ]

positive_id_lem : (o : Option ℤ) (id : ℕ) → positive_id o ≡ some id → o ≡ some (pos id)
unfolding positive_id
positive_id_lem none id h = absurd (cc h)
positive_id_lem (some (negsuc n)) id h = absurd (cc h)
positive_id_lem (some (pos n)) id h = ground arith

-- A request to delete a message is answered with an error and changes nothing, or the message of
-- the requested number was in the channel, the user is its author, the owner of the channel or an
-- administrator, and it is deleted with its reactions, and no other message or reaction is.
pub delete_channel_message-IsOutcome :
    (env : Env) (session : Option UserSnapshot) (slug raw : Text) (b : Board)
    → IsOutcome session slug raw b (delete_channel_message env session slug raw b)
unfolding delete_channel_message
delete_channel_message-IsOutcome env none slug raw b = inl (refl, omega arith)
delete_channel_message-IsOutcome env (some user) slug raw b =
    delete_as-IsOutcome env user (positive_id (parse_int raw)) slug raw b
      (λ id h. positive_id_lem (parse_int raw) id h)

admin_delete_id-IsAnswered :
    (env : Env) (session : Option UserSnapshot) (refusal : Option Response) (o : Option ℕ)
    (b : Board)
    → require_admin session ≡ refusal
    → (((admin_delete_id env refusal o b).0 ≡ b)
        ⊎ (id : ℕ) × (o ≡ some id)
          × (require_admin session ≡ none)
          × IsAnswered id b (admin_delete_id env refusal o b))
unfolding admin_delete_id
admin_delete_id-IsAnswered env session (some r) o b e = inl refl
admin_delete_id-IsAnswered env session none none b e = inl refl
admin_delete_id-IsAnswered env session none (some id) b e =
    inr (id, refl, e, delete_chat_message_by_id-IsAnswered env id b)

-- Only an administrator's request to delete any message changes something: it deletes the message
-- with the requested number and its reactions.
admin_delete_message-IsAnswered :
    (env : Env) (session : Option UserSnapshot) (raw : Text) (b : Board)
    → (((admin_delete_message env session raw b).0 ≡ b)
        ⊎ (id : ℕ) × (positive_id (parse_int raw) ≡ some id)
          × (require_admin session ≡ none)
          × IsAnswered id b (admin_delete_message env session raw b))
unfolding admin_delete_message
admin_delete_message-IsAnswered env session raw b =
    admin_delete_id-IsAnswered env session (require_admin session) (positive_id (parse_int raw)) b
      refl
