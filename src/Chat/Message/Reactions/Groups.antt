-- ===== src/Chat/Message/Reactions/Groups.antt =====
-- chat/message.go: the groups of `ReactionGroupsFromRows` against the rows that they sum.
use mamechat.Prelude.{
  ◌≡◌, ◌≢◌, refl, ap, ◌∙◌, sym, false, List, [], ◌∷◌, ◌++◌, Text, text_eq, text_eq_iff,
  if◌then◌else◌, length, length-append, arith, Bool-cases, inl, inr,
}
use mathlib.Core.List.{append_assoc, append-nil}
use mamechat.Chat.Message.{ReactionUser, ReactionGroup}
use mamechat.Chat.Message.Reactions.{
  ReactionRow, reaction_user, add_row, groups_from, reaction_groups_from_rows,
}

-- The users of an emoji in some groups.
abbrev pub users_of : Text → List ReactionGroup → List ReactionUser
users_of e [] = []
users_of e (g ∷ gs) = if text_eq g.emoji e then g.users else users_of e gs

-- The users of an emoji in the rows, in their order.
abbrev pub reacted : Text → List ReactionRow → List ReactionUser
reacted e [] = []
reacted e (r ∷ rs) = if text_eq r.emoji e then reaction_user r ∷ reacted e rs else reacted e rs

users_of-add_row :
    (e : Text) (r : ReactionRow) (gs : List ReactionGroup)
    → users_of e (add_row r gs)
      ≡ (if text_eq r.emoji e then users_of e gs ++ reaction_user r ∷ [] else users_of e gs)
unfolding add_row
users_of-add_row e r [] = ground arith
users_of-add_row e r (g ∷ gs) = ground (
  arith,
  text_eq_iff g.emoji r.emoji,
  text_eq_iff g.emoji e,
  text_eq_iff r.emoji e,
  users_of-add_row e r gs,
)

users_of-groups_from :
    (e : Text) (gs : List ReactionGroup) (rs : List ReactionRow)
    → users_of e (groups_from gs rs) ≡ users_of e gs ++ reacted e rs
unfolding groups_from
users_of-groups_from e gs [] = sym (append-nil _)
users_of-groups_from e gs (r ∷ rs) = elim (Bool-cases (text_eq r.emoji e)) [
  | inl p ↦
      users_of-groups_from e (add_row r gs) rs ∙ rw (users_of-add_row e r gs, p) (rw append_assoc)
  | inr p ↦ users_of-groups_from e (add_row r gs) rs ∙ rw (users_of-add_row e r gs, p)
]

-- Every group holds somebody, its count is the number of its users, and its emoji is that of no
-- later group.
abbrev pub Lacks : Text → List ReactionGroup → Type 0
Lacks e [] = Unit
Lacks e (g ∷ gs) = (text_eq g.emoji e ≡ false) × Lacks e gs

abbrev pub IsTally : List ReactionGroup → Type 0
IsTally [] = Unit
IsTally (g ∷ gs) = (length g.users ≡ g.count) × (g.users ≢ []) × Lacks g.emoji gs × IsTally gs

Lacks-add_row :
    (e : Text) (r : ReactionRow) (gs : List ReactionGroup)
    → text_eq r.emoji e ≡ false
    → Lacks e gs
    → Lacks e (add_row r gs)
unfolding add_row
Lacks-add_row e r [] h l = (h, tt)
Lacks-add_row e r (g ∷ gs) h l = ground (arith, Lacks-add_row e r gs)

add_row-IsTally : (r : ReactionRow) (gs : List ReactionGroup) → IsTally gs → IsTally (add_row r gs)
unfolding add_row
add_row-IsTally r [] t = (refl, λ e. cc, tt, tt)
add_row-IsTally r (g ∷ gs) (count, some_users, alone, t) =
    elim (Bool-cases (text_eq g.emoji r.emoji)) [
      | inl p ↦ rw p (
        omega (arith, length-append {0} g.users (reaction_user r ∷ [])),
        (λ e. omega (
          arith,
          length-append {0} g.users (reaction_user r ∷ []),
          ap (length {0} {A = ReactionUser}) e,
        )),
        alone,
        t,
      )
      | inr p ↦ rw p (
        count,
        some_users,
        Lacks-add_row g.emoji r gs
            (ground (arith, text_eq_iff g.emoji r.emoji, text_eq_iff r.emoji g.emoji)) alone,
        add_row-IsTally r gs t,
      )
    ]

groups_from-IsTally :
    (gs : List ReactionGroup) (rs : List ReactionRow) → IsTally gs → IsTally (groups_from gs rs)
unfolding groups_from
groups_from-IsTally gs [] t = t
groups_from-IsTally gs (r ∷ rs) t = groups_from-IsTally (add_row r gs) rs (add_row-IsTally r gs t)

-- The groups of some rows have distinct emojis and hold, for each emoji, the users of the rows
-- with it in their order; each group's count is the number of its users, which is not 0.
pub reaction_groups_from_rows_lem :
    (rows : List ReactionRow) (e : Text)
    → IsTally (reaction_groups_from_rows rows)
      × (users_of e (reaction_groups_from_rows rows) ≡ reacted e rows)
unfolding reaction_groups_from_rows
reaction_groups_from_rows_lem rows e =
    (groups_from-IsTally [] rows tt, users_of-groups_from e [] rows)
