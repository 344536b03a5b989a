-- ===== src/Chat/Message/Reactions.antt =====
-- chat/message.go: the reactions to messages, summed by emoji, and generated/db/reactions.sql.go:
-- the table that they are toggled in.
pub mod Groups
pub mod Toggle
use mamechat.Prelude.{
  ℕ, suc, Bool, true, false, ◌&&◌, not, Option, none, some, List, [], ◌∷◌, ◌++◌, Text, text_eq,
  ◌==◌, ltb, if◌then◌else◌, decimal, keep, any, length,
}
use mamechat.Chat.Message.{ReactionUser, ReactionGroup, text_value}

-- A row of `ListReactionsForMessage`.
pub record ReactionRow : Type 0 where
  pub message_id : ℕ
  pub emoji : Text
  pub user_id : ℕ
  pub user_handle : Option Text
  pub user_display_name : Text

abbrev pub reaction_user : ReactionRow → ReactionUser
reaction_user r = record {
  id = decimal r.user_id;
  handle = text_value r.user_handle;
  display_name = r.user_display_name;
}

-- The groups in the order of their first rows, which is the map `byEmoji` read through `order`: a
-- row joins the group of its emoji, or starts one at the end.
unfoldable pub add_row : ReactionRow → List ReactionGroup → List ReactionGroup
add_row r [] = record { emoji = r.emoji; count = 1; users = reaction_user r ∷ [] } ∷ []
add_row r (g ∷ gs) =
    if text_eq g.emoji r.emoji
    then record g { count = suc g.count; users = g.users ++ reaction_user r ∷ [] } ∷ gs
    else g ∷ add_row r gs

groups_from : List ReactionGroup → List ReactionRow → List ReactionGroup
groups_from gs [] = gs
groups_from gs (r ∷ rs) = groups_from (add_row r gs) rs

-- `ReactionGroupsFromRows`
unfoldable pub reaction_groups_from_rows : List ReactionRow → List ReactionGroup
unfolding groups_from
reaction_groups_from_rows rows = groups_from [] rows

-- `ReactionGroupsByMessage`: the groups of the messages that have rows.
unfoldable pub reaction_groups_by_message : List ReactionRow → ℕ → Option (List ReactionGroup)
reaction_groups_by_message rows id =
    let own = keep (λ r. r.message_id == id) rows in
    if ltb 0 (length own) then some (reaction_groups_from_rows own) else none

-- A row of message_reactions; the columns that are unique together.
pub record Reaction : Type 0 where
  pub message_id : ℕ
  pub user_id : ℕ
  pub emoji : Text

unfoldable pub same_reaction : Reaction → Reaction → Bool
same_reaction a b =
    a.message_id == b.message_id && a.user_id == b.user_id && text_eq a.emoji b.emoji

-- `RemoveMessageReaction`: the rows that are left, and how many went.
unfoldable pub remove_message_reaction : Reaction → List Reaction → List Reaction × ℕ
remove_message_reaction r [] = ([], 0)
remove_message_reaction r (x ∷ xs) =
    let (rest, n) = remove_message_reaction r xs in
    if same_reaction x r then (rest, suc n) else (x ∷ rest, n)

-- `AddMessageReaction`, `ON CONFLICT DO NOTHING`; a new row is the latest.
unfoldable pub add_message_reaction : Reaction → List Reaction → List Reaction
add_message_reaction r xs = if any (λ x. same_reaction x r) xs then xs else xs ++ r ∷ []

-- The two statements of `handleReactionToggle`: a reaction that was there goes, another comes.
unfoldable pub toggle_reaction : Reaction → List Reaction → List Reaction
toggle_reaction r xs =
    let (rest, n) = remove_message_reaction r xs in
    if n == 0 then add_message_reaction r rest else rest
