-- ===== src/Accounts.antt =====
-- The users and their sessions: auth/session.go (`Manager`), and the tables `users`, `sessions`,
-- `auth_identities` and `user_settings` under the statements of generated/db that the modelled code
-- runs. A row has the columns that are read.
pub mod Sessions
pub mod Users
pub mod Profile
use mamechat.Prelude.{
  ℕ, ◌+◌, Bool, true, false, not, ◌&&◌, ◌||◌, Option, none, some, List, [], ◌∷◌, Text, ltb, ◌==◌,
  text_eq, is_some, codes, if◌then◌else◌,
}
use mamechat.Strings.{is_empty}
use mamechat.Chat.Time.{Time, Duration}
use mamechat.Chat.User.{Speaker, UserSnapshot}
use mamechat.Chat.Message.{text_value}

pub record UserRow : Type 0 where
  pub display_name : Text
  pub handle : Option Text
  pub avatar_url : Option Text
  pub status : Text
  pub role : Text

pub record SessionRow : Type 0 where
  pub id : ℕ
  pub user_id : ℕ
  pub token_hash : Text
  pub expires_at : Time
  pub revoked_at : Option Time

pub record Identity : Type 0 where
  pub provider : Text
  pub subject : Text
  pub profile_url : Option Text

pub record UserSettings : Type 0 where
  pub tts_voicevox_speaker_uuid : Option Text
  pub ghost_mode : Bool

-- What the hub is told to disconnect.
pub data Notice : Type 0 where
  session_dropped user_dropped : ℕ → Notice
  all_dropped : Notice

-- The tables by the identifiers of users, the sessions the latest first; `identities` are the
-- oldest of each user. `notices` lists what the hub was told, the latest first.
pub record Accounts : Type 0 where
  pub users : ℕ → Option UserRow
  pub identities : ℕ → Option Identity
  pub settings : ℕ → Option UserSettings
  pub sessions : List SessionRow
  pub notices : List Notice

pub data AccountCall : Type 0 where
  inserting_session reading_session revoking_session revoking_user revoking_all : AccountCall
  reading_user reading_identity reading_user_settings creating_settings : AccountCall
  setting_ghost updating_user deleting_user counting_owned : AccountCall

-- The clock, the lifetime of a session, the hash of a token, the calls that fail, and the
-- characters of the package voicevox: by their identifiers, and the one that chance picks.
pub record Office : Type 0 where
  pub now : Time
  pub session_ttl : Duration
  pub hash_token : Text → Text
  pub fails : AccountCall → Bool
  pub character_by_uuid : Text → Option Speaker
  pub random_character : Speaker

abbrev pub set_at {ℓ} : {A : Type ℓ} → ℕ → A → (ℕ → A) → ℕ → A
set_at id a f k = if k == id then a else f k

-- `CreateSession` of the manager: the row for a fresh token; false if it fails.
unfoldable pub create_session : Office → ℕ → Text → ℕ → Accounts → Accounts × Bool
create_session office id token user_id s =
    let row : SessionRow = record {
      id = id;
      user_id = user_id;
      token_hash = office.hash_token token;
      expires_at = office.now + office.session_ttl;
      revoked_at = none;
    } in
    if office.fails inserting_session
    then (s, false)
    else (record s { sessions = row ∷ s.sessions }, true)

-- `token_hash = $1 AND revoked_at IS NULL AND expires_at > now()`
abbrev pub is_live : Time → Text → SessionRow → Bool
is_live now hash row =
    text_eq row.token_hash hash && not (is_some row.revoked_at) && ltb now row.expires_at

-- `GetSessionByTokenHash`
unfoldable pub live_session : Time → Text → List SessionRow → Option SessionRow
live_session now hash [] = none
live_session now hash (row ∷ rows) =
    if is_live now hash row then some row else live_session now hash rows

-- `UPDATE sessions SET revoked_at = now() WHERE ... AND revoked_at IS NULL`
unfoldable pub revoke_where : Time → (SessionRow → Bool) → List SessionRow → List SessionRow
revoke_where now test [] = []
revoke_where now test (row ∷ rows) =
    (if test row && not (is_some row.revoked_at) then record row { revoked_at = some now } else row)
    ∷ revoke_where now test rows

-- `ttsSpeakerSnapshot`
unfoldable pub speaker_snapshot : Speaker → Option Speaker
speaker_snapshot c = if is_empty c.uuid then none else some c

chosen_speaker : Office → Option Text → Option Speaker
chosen_speaker office none = none
chosen_speaker office (some uuid) = elim (office.character_by_uuid uuid) [
  | none ↦ none
  | some c ↦ speaker_snapshot c
]

-- The settings that `UpsertUserSettingsTTSVoicevoxSpeaker` makes where there are none.
new_settings : Office → UserSettings
new_settings office = record {
  tts_voicevox_speaker_uuid = some office.random_character.uuid;
  ghost_mode = false;
}

settings_found :
    Office → ℕ → Option UserSettings → Accounts → Accounts × Option (Option Speaker × Bool)
settings_found office user_id (some row) s =
    (s, some (chosen_speaker office row.tts_voicevox_speaker_uuid, row.ghost_mode))
settings_found office user_id none s = if office.fails creating_settings then (s, none) else (
  record s { settings = set_at user_id (some (new_settings office)) s.settings },
  some (speaker_snapshot office.random_character, false),
)

-- `ensureUserSettings`: the speaker and the ghost mode; none if it fails.
unfoldable pub ensure_user_settings :
    Office → ℕ → Accounts → Accounts × Option (Option Speaker × Bool)
unfolding chosen_speaker new_settings settings_found
ensure_user_settings office user_id s =
    if office.fails reading_user_settings
    then (s, none)
    else settings_found office user_id (s.settings user_id) s

identity_text : (Identity → Text) → Option Identity → Text
identity_text f none = []
identity_text f (some i) = f i

-- `SnapshotFromDB`, with the ghost mode.
unfoldable pub snapshot_from_db :
    ℕ → UserRow → Option Identity → Option Speaker → Bool → UserSnapshot
unfolding identity_text
snapshot_from_db id row identity speaker ghost = record {
  id = id;
  display_name = row.display_name;
  handle = text_value row.handle;
  avatar_url = text_value row.avatar_url;
  provider = identity_text (λ i. i.provider) identity;
  subject = identity_text (λ i. i.subject) identity;
  role = row.role;
  status = row.status;
  profile_url = identity_text (λ i. text_value i.profile_url) identity;
  tts_voicevox_speaker = speaker;
  ghost_mode = ghost;
}

pub record SessionSnapshot : Type 0 where
  pub id : ℕ
  pub user : UserSnapshot

with_settings :
    SessionRow
    → UserRow
    → Option Identity
    → Accounts × Option (Option Speaker × Bool)
    → Accounts × Option SessionSnapshot
with_settings session row identity (s, none) = (s, none)
with_settings session row identity (s, some (speaker, ghost)) = (
  s,
  some (record {
    id = session.id;
    user = snapshot_from_db session.user_id row identity speaker ghost;
  }),
)

with_user :
    Office → Bool → SessionRow → Option UserRow → Accounts → Accounts × Option SessionSnapshot
with_user office allow_inactive session none s = (s, none)
with_user office allow_inactive session (some row) s =
    if not allow_inactive && not (text_eq row.status (codes "active"))
    then (s, none)
    else if office.fails reading_identity
    then (s, none)
    else with_settings session row (s.identities session.user_id)
        (ensure_user_settings office session.user_id s)

with_session : Office → Bool → Option SessionRow → Accounts → Accounts × Option SessionSnapshot
with_session office allow_inactive none s = (s, none)
with_session office allow_inactive (some session) s =
    if office.fails reading_user
    then (s, none)
    else with_user office allow_inactive session (s.users session.user_id) s

-- `currentSession`, for the value of the cookie, which is empty if there is none; none is an error.
-- That a session was seen is not recorded, since nothing modelled reads it.
unfoldable pub current_session : Office → Bool → Text → Accounts → Accounts × Option SessionSnapshot
unfolding with_settings with_user with_session
current_session office allow_inactive cookie s =
    if is_empty cookie || office.fails reading_session
    then (s, none)
    else with_session office allow_inactive
        (live_session office.now (office.hash_token cookie) s.sessions) s

-- `Logout`, with whether it succeeded.
unfoldable pub logout : Office → Text → Accounts → Accounts × Bool
logout office cookie s =
    let hash = office.hash_token cookie in
    if is_empty cookie then (s, true) else if office.fails revoking_session then (s, false) else (
      record s {
        sessions = revoke_where office.now (λ row. text_eq row.token_hash hash) s.sessions;
      },
      true,
    )
