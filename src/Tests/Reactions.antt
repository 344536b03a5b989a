-- ===== src/Tests/Reactions.antt =====
-- The theorems on reactions, at a message with two of them.
use mamechat.Prelude.{ℕ, ◌≡◌, none, List, [], ◌∷◌, Text, codes}
use mamechat.Chat.Message.Reactions.{ReactionRow, Reaction, reaction_groups_from_rows}
use mamechat.Chat.Message.Reactions.Groups.{
  IsTally, users_of, reacted, reaction_groups_from_rows_lem,
}

abbrev reaction_row : ℕ → Text → ReactionRow
reaction_row id emoji = record {
  message_id = 1;
  emoji = emoji;
  user_id = id;
  user_handle = none;
  user_display_name = codes "Mame";
}

abbrev rows : List ReactionRow
rows = reaction_row 1 (codes "+") ∷ reaction_row 2 (codes "-") ∷ reaction_row 3 (codes "+") ∷ []

reaction_groups_from_rows_lem_example :
    IsTally (reaction_groups_from_rows rows)
    × (users_of (codes "+") (reaction_groups_from_rows rows) ≡ reacted (codes "+") rows)
reaction_groups_from_rows_lem_example = reaction_groups_from_rows_lem rows (codes "+")

abbrev plus : ℕ → Reaction
plus id = record { message_id = 1; user_id = id; emoji = codes "+" }
