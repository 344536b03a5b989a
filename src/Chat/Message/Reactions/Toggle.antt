-- ===== src/Chat/Message/Reactions/Toggle.antt =====
-- chat/websocket.go and generated/db/reactions.sql.go: toggling a reaction in the table.
use mamechat.Prelude.{
  ◌≡◌, refl, Bool, true, false, not, List, [], ◌∷◌, ◌++◌, text_eq_iff, ◌==◌, if◌then◌else◌, any,
  arith, Bool-cases, inl, inr,
}
use mamechat.Chat.Message.Reactions.{
  Reaction, same_reaction, remove_message_reaction, add_message_reaction, toggle_reaction,
}

-- Whether the table holds a reaction.
abbrev pub has : Reaction → List Reaction → Bool
has r xs = any (λ x. same_reaction x r) xs

same_reaction_trans :
    (a b c : Reaction) → same_reaction a b ≡ true → same_reaction a c ≡ same_reaction b c
unfolding same_reaction
same_reaction_trans a b c h =
    ground
      (arith, text_eq_iff a.emoji b.emoji, text_eq_iff a.emoji c.emoji, text_eq_iff b.emoji c.emoji)

same_reaction_refl : (a : Reaction) → same_reaction a a ≡ true
unfolding same_reaction
same_reaction_refl a = ground (arith, text_eq_iff a.emoji a.emoji)

same_reaction_cancel :
    (x a b : Reaction) → same_reaction a b ≡ true → same_reaction x a ≡ same_reaction x b
unfolding same_reaction
same_reaction_cancel x a b h =
    ground
      (arith, text_eq_iff a.emoji b.emoji, text_eq_iff x.emoji a.emoji, text_eq_iff x.emoji b.emoji)

has_same : (a b : Reaction) (xs : List Reaction) → same_reaction a b ≡ true → has a xs ≡ has b xs
has_same a b [] h = refl
has_same a b (x ∷ xs) h = ground (arith, same_reaction_cancel x a b, has_same a b xs)

has-remove :
    (q r : Reaction) (xs : List Reaction)
    → has q (remove_message_reaction r xs).0 ≡ (if same_reaction r q then false else has q xs)
unfolding remove_message_reaction
has-remove q r [] = ground arith
has-remove q r (x ∷ xs) = elim (Bool-cases (same_reaction x r)) [
  | inl e ↦ rw e (ground (arith, has-remove q r xs, same_reaction_trans x r q))
  | inr e ↦ rw e (ground (arith, has-remove q r xs, same_reaction_cancel x r q))
]

has-append :
    (q r : Reaction) (xs : List Reaction)
    → has q (xs ++ r ∷ []) ≡ (if same_reaction r q then true else has q xs)
has-append q r [] = ground arith
has-append q r (x ∷ xs) = ground (arith, has-append q r xs)

remove-none :
    (r : Reaction) (xs : List Reaction) → ((remove_message_reaction r xs).1 == 0) ≡ not (has r xs)
unfolding remove_message_reaction
remove-none r [] = ground arith
remove-none r (x ∷ xs) = ground (arith, remove-none r xs)

has-add :
    (q r : Reaction) (xs : List Reaction)
    → has q (add_message_reaction r xs) ≡ (if same_reaction r q then true else has q xs)
unfolding add_message_reaction
has-add q r xs = elim (Bool-cases (has r xs)) [
  | inl e ↦ rw e (ground (arith, has_same r q xs))
  | inr e ↦ rw e (has-append q r xs)
]

-- Toggling turns the reaction over and leaves every other reaction as it was.
pub toggle_reaction_lem :
    (r q : Reaction) (xs : List Reaction)
    → has q (toggle_reaction r xs) ≡ (if same_reaction r q then not (has r xs) else has q xs)
unfolding toggle_reaction
toggle_reaction_lem r q xs = elim (Bool-cases (has r xs)) [
  | inl e ↦ rw (remove-none r xs, e) (has-remove q r xs)
  | inr e ↦
      rw (remove-none r xs, e)
        (ground (arith, has-add q r (remove_message_reaction r xs).0, has-remove q r xs))
]
