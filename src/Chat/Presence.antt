-- ===== src/Chat/Presence.antt =====
-- chat/hub.go: `buildPresence`, from the active set in Valkey and the visitors in the database.
pub mod Order
use mamechat.Prelude.{
  ℕ, Bool, true, false, not, ◌&&◌, ◌||◌, Option, none, some, List, [], ◌∷◌, ◌++◌, Text, text_eq,
  any, length, ◌==◌, decimal, if◌then◌else◌,
}
use mamechat.Chat.Time.{Time, TimeFormat}
use mamechat.Chat.Message.{MessageUser, PresenceMember, ServerMessage, text_value, speaker_info}
use mamechat.Chat.Notices.{presence_message}

abbrev pub presence_visitor_limit : ℕ
presence_visitor_limit = 50

-- A row of `ListChannelVisitors` or `GetChannelVisitor`.
pub record VisitorRow : Type 0 where
  pub user_id : ℕ
  pub display_name : Text
  pub handle : Option Text
  pub avatar_url : Option Text
  pub provider : Option Text
  pub tts_voicevox_speaker_uuid : Option Text
  pub tts_voicevox_speaker_name : Option Text
  pub tts_voicevox_speaker_url : Option Text

abbrev pub visitor_user : VisitorRow → MessageUser
visitor_user v = record {
  id = decimal v.user_id;
  display_name = v.display_name;
  handle = text_value v.handle;
  avatar_url = text_value v.avatar_url;
  provider = text_value v.provider;
  tts_voicevox_speaker =
      speaker_info v.tts_voicevox_speaker_uuid v.tts_voicevox_speaker_name
        v.tts_voicevox_speaker_url;
}

unfoldable pub is_active : List Text → ℕ → Bool
is_active active user_id = any (λ a. text_eq a (decimal user_id)) active

-- What the services answer: the active set, the latest visitors up to the limit, their number, and
-- the visit of one user. `none` is an error, or for a single visit that there is none.
pub record Answers : Type 0 where
  pub active : Option (List Text)
  pub visitors : Option (List VisitorRow)
  pub total : Option ℕ
  pub visitor : ℕ → Option VisitorRow

abbrev pub or_empty {ℓ} : {A : Type ℓ} → Option (List A) → List A
or_empty none = []
or_empty (some xs) = xs

abbrev or_0 : Option ℕ → ℕ
or_0 none = 0
or_0 (some n) = n

abbrev pub is_owner_id : ℕ → ℕ → Bool
is_owner_id owner_id user_id = not (owner_id == 0) && user_id == owner_id

abbrev pub member : List Text → VisitorRow → PresenceMember
member active v = record {
  user = visitor_user v;
  active = is_active active v.user_id;
  is_owner = false;
}

abbrev pub owner_member : List Text → VisitorRow → PresenceMember
owner_member active v = record (member active v) { is_owner = true }

-- The loop over the visitors: those who are not the owner, in their order.
unfoldable pub other_members : List Text → ℕ → List VisitorRow → List PresenceMember
other_members active owner_id [] = []
other_members active owner_id (v ∷ vs) =
    let rest = other_members active owner_id vs in
    if is_owner_id owner_id v.user_id then rest else member active v ∷ rest

-- The same loop: the last of the owner's rows, on top of what was found so far.
unfoldable pub find_owner :
    List Text → ℕ → List VisitorRow → Option PresenceMember → Option PresenceMember
find_owner active owner_id [] found = found
find_owner active owner_id (v ∷ vs) found =
    find_owner active owner_id vs
      (if is_owner_id owner_id v.user_id then some (owner_member active v) else found)

-- `sort.SliceStable` by "active before inactive", as an insertion sort.
abbrev less : PresenceMember → PresenceMember → Bool
less a b = a.active && not b.active

unfoldable pub insert_member : PresenceMember → List PresenceMember → List PresenceMember
insert_member m [] = m ∷ []
insert_member m (n ∷ ns) = if less n m then n ∷ insert_member m ns else m ∷ n ∷ ns

unfoldable pub sort_members : List PresenceMember → List PresenceMember
unfolding insert_member
sort_members [] = []
sort_members (m ∷ ms) = insert_member m (sort_members ms)

-- The owner is fetched alone if no visitor of the list was the owner.
unfoldable pub or_fetched :
    List Text → ℕ → Option VisitorRow → Option PresenceMember → Option PresenceMember
or_fetched active owner_id row (some m) = some m
or_fetched active owner_id none none = none
or_fetched active owner_id (some v) none =
    if owner_id == 0
    then none
    else some
        (record { user = visitor_user v; active = is_active active owner_id; is_owner = true })

unfoldable pub build_presence : TimeFormat → Time → Answers → Text → ℕ → Text → ServerMessage
unfolding or_fetched find_owner sort_members other_members
build_presence f now a slug owner_id deadline =
    let active = or_empty a.active in
    let rows = or_empty a.visitors in
    presence_message f now slug
      (or_fetched active owner_id (a.visitor owner_id) (find_owner active owner_id rows none))
      (sort_members (other_members active owner_id rows)) (length active) (or_0 a.total) deadline
