-- ===== src/Chat/Presence/Order.antt =====
-- chat/hub.go: the order of the members in a presence message.
use mamechat.Prelude.{
  ℕ, ◌≡◌, refl, Bool, true, false, not, List, [], ◌∷◌, ◌++◌, Text, keep, if◌then◌else◌, arith,
}
use mamechat.Chat.Time.{Time, TimeFormat}
use mamechat.Chat.Message.{PresenceMember}
use mamechat.Chat.Presence.{
  VisitorRow, Answers, is_active, or_empty, is_owner_id, member, other_members, insert_member,
  sort_members, build_presence,
}

-- The visitors other than the owner who are active, or who are not.
abbrev pub picked : List Text → ℕ → Bool → List VisitorRow → List VisitorRow
picked active owner_id wanted [] = []
picked active owner_id wanted (v ∷ vs) =
    let rest = picked active owner_id wanted vs in
    if is_owner_id owner_id v.user_id
    then rest
    else if is_active active v.user_id
    then (if wanted then v ∷ rest else rest)
    else (if wanted then rest else v ∷ rest)

abbrev pub shown : List Text → List VisitorRow → List PresenceMember
shown active [] = []
shown active (v ∷ vs) = member active v ∷ shown active vs

abbrev split : List PresenceMember → List PresenceMember
split ms = keep (λ m. m.active) ms ++ keep (λ m. not m.active) ms

insert_active :
    (m : PresenceMember) (xs ys : List PresenceMember)
    → m.active ≡ true
    → insert_member m (xs ++ ys) ≡ m ∷ (xs ++ ys)
unfolding insert_member
insert_active m [] [] h = refl
insert_active m [] (y ∷ ys) h = ground arith
insert_active m (x ∷ xs) ys h = ground arith

abbrev AllActive : List PresenceMember → Type 0
AllActive [] = Unit
AllActive (m ∷ ms) = (m.active ≡ true) × AllActive ms

abbrev NoneActive : List PresenceMember → Type 0
NoneActive [] = Unit
NoneActive (m ∷ ms) = (m.active ≡ false) × NoneActive ms

insert_inactive :
    (m : PresenceMember) (xs ys : List PresenceMember)
    → m.active ≡ false
    → AllActive xs
    → NoneActive ys
    → insert_member m (xs ++ ys) ≡ xs ++ m ∷ ys
unfolding insert_member
insert_inactive m [] [] h a n = refl
insert_inactive m [] (y ∷ ys) h a n = ground arith
insert_inactive m (x ∷ xs) ys h a n = ground (arith, insert_inactive m xs ys)

shown-picked_active :
    (active : List Text) (o : ℕ) (vs : List VisitorRow)
    → AllActive (shown active (picked active o true vs))
shown-picked_active active o [] = tt
shown-picked_active active o (v ∷ vs) = ground (arith, shown-picked_active active o vs)

shown-picked_inactive :
    (active : List Text) (o : ℕ) (vs : List VisitorRow)
    → NoneActive (shown active (picked active o false vs))
shown-picked_inactive active o [] = tt
shown-picked_inactive active o (v ∷ vs) = ground (arith, shown-picked_inactive active o vs)

sort_others :
    (active : List Text) (o : ℕ) (vs : List VisitorRow)
    → sort_members (other_members active o vs)
      ≡ shown active (picked active o true vs) ++ shown active (picked active o false vs)
unfolding sort_members other_members
sort_others active o [] = refl
sort_others active o (v ∷ vs) = ground (
  arith,
  sort_others active o vs,
  insert_active (member active v) (shown active (picked active o true vs))
      (shown active (picked active o false vs)),
  insert_inactive (member active v) (shown active (picked active o true vs))
      (shown active (picked active o false vs)),
  shown-picked_active active o vs,
  shown-picked_inactive active o vs,
)

-- The members of a presence message are the listed visitors other than the owner, first those who
-- are active and then the others, each group in the order of the list, which is that of the posts.
pub build_presence-members :
    (f : TimeFormat) (now : Time) (a : Answers) (slug : Text) (owner_id : ℕ) (deadline : Text)
    → let active = or_empty a.active in
      let rows = or_empty a.visitors in
      (build_presence f now a slug owner_id deadline).members
      ≡ shown active (picked active owner_id true rows)
        ++ shown active (picked active owner_id false rows)
unfolding build_presence
build_presence-members f now a slug o deadline =
    sort_others (or_empty a.active) o (or_empty a.visitors)
