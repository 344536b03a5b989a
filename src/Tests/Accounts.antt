-- ===== src/Tests/Accounts.antt =====
-- The theorems on users and sessions, at an active user with a session.
use mamechat.Prelude.{
  text_eq, ◌+◌, ◌*◌, ◌≡◌, refl, true, false, none, some, [], ◌∷◌, pos, codes, arith, if◌then◌else◌,
  ◌==◌,
}
use mamechat.Chat.Time.{second}
use mamechat.Chat.User.{Speaker}
use mamechat.Strings.{is_empty, trim_space, to_lower}
use mamechat.Accounts.{
  UserRow, SessionRow, Accounts, Office, SessionSnapshot, create_session, current_session, logout,
  live_session, ensure_user_settings, snapshot_from_db,
}
use mamechat.Accounts.Sessions.{
  IsAccepted, current_session-IsAccepted, current_session-logout, current_session-create,
}
use mamechat.Accounts.Users.{
  AccountRequest, UpdateRequest, update_user, delete_user, act_on_accounts, handle_accounts,
  requested_row, update_request, owner_problem, update_row, row_problem, update_at, update_found,
  update_checked, store_user, expel,
}
use mamechat.Accounts.Users.Owners.{KeepsOwners, handle_accounts-KeepsOwners}
use mamechat.Accounts.Users.Suspension.{IsExpelled, update_user-IsExpelled}
use mamechat.Tests.{noon, evening, user}

abbrev speaker : Speaker
speaker = record { uuid = codes "uuid"; name = codes "Mame"; url = [] }

-- The hash of a token is the token.
abbrev pub office : Office
office = record {
  now = noon;
  session_ttl = 60 * second;
  hash_token = λ t. t;
  fails = λ c. false;
  character_by_uuid = λ id. none;
  random_character = speaker;
}

abbrev later : Office
later = record office { now = noon + 30 * second }

abbrev mame : UserRow
mame = record {
  display_name = codes "Mame";
  handle = none;
  avatar_url = none;
  status = codes "active";
  role = codes "user";
}

abbrev session : SessionRow
session = record {
  id = 7;
  user_id = 2;
  token_hash = codes "token";
  expires_at = evening;
  revoked_at = none;
}

abbrev pub accounts : Accounts
accounts = record {
  users = λ id. if id == 2 then some mame else none;
  identities = λ id. none;
  settings = λ id. some (record { tts_voicevox_speaker_uuid = none; ghost_mode = false });
  sessions = session ∷ [];
  notices = [];
}

abbrev snapshot : SessionSnapshot
snapshot = record {
  id = 7;
  user = record {
    id = 2;
    display_name = codes "Mame";
    handle = [];
    avatar_url = [];
    provider = [];
    subject = [];
    role = codes "user";
    status = codes "active";
    profile_url = [];
    tts_voicevox_speaker = none;
    ghost_mode = false;
  };
}

has_session : (current_session office false (codes "token") accounts).1 ≡ some snapshot
unfolding current_session live_session ensure_user_settings snapshot_from_db
has_session = refl

current_session-IsAccepted_example : IsAccepted office false (codes "token") accounts snapshot
current_session-IsAccepted_example =
    current_session-IsAccepted office false (codes "token") accounts snapshot has_session

logged_out : (logout office (codes "token") accounts).1 ≡ true
unfolding logout
logged_out = refl

current_session-logout_example :
    (current_session later true (codes "token") (logout office (codes "token") accounts).0).1 ≡ none
current_session-logout_example =
    current_session-logout office later true (codes "token") accounts refl logged_out

created : (create_session office 8 (codes "other") 2 accounts).1 ≡ true
unfolding create_session
created = refl

not_empty : is_empty (codes "other") ≡ false
not_empty = refl

current_session-create_example :
    (snapshot : SessionSnapshot) × ((current_session later false
        (codes "other")
        (create_session office 8 (codes "other") 2 accounts).0).1
      ≡ some snapshot)
    × (snapshot.id ≡ 8)
    × (snapshot.user.id ≡ 2)
current_session-create_example =
    current_session-create office later 8 2 (codes "other") accounts mame created not_empty refl
      (omega arith) refl refl (refl, refl, refl, refl, refl)

handle_accounts-KeepsOwners_example :
    KeepsOwners accounts
      (handle_accounts office (λ c. c) (some (user 2)) (delete_user (some (pos 2))) accounts).0
handle_accounts-KeepsOwners_example =
    handle_accounts-KeepsOwners office (λ c. c) (some (user 2)) (delete_user (some (pos 2)))
      accounts

abbrev suspension : UpdateRequest
suspension = record {
  display_name = codes "Mame";
  handle = [];
  avatar_url = [];
  status = codes "suspended";
  role = codes "user";
}

abbrev suspend_2 : AccountRequest
suspend_2 = update_user (some (pos 2)) (some suspension)

is_changed : text_eq mame.status (requested_row (λ c. c) suspension).status ≡ false
unfolding trim_space
is_changed = refl

suspended_2 : (act_on_accounts office (λ c. c) suspend_2 accounts).1.status ≡ 200
unfolding act_on_accounts update_request update_row row_problem update_at update_found
    update_checked owner_problem store_user expel trim_space to_lower
suspended_2 = refl

update_user-IsExpelled_example :
    IsExpelled 2
      (requested_row (λ c. c) suspension)
      (act_on_accounts office (λ c. c) suspend_2 accounts).0
update_user-IsExpelled_example =
    update_user-IsExpelled office (λ c. c) 2 suspension mame accounts refl is_changed refl
      suspended_2
