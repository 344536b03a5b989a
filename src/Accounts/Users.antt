-- ===== src/Accounts/Users.antt =====
-- httpserver/routes.go: what administrators do to users and sessions (`adminUpdateUser`,
-- `adminDeleteUser`, `adminRevokeSession`, `adminRevokeAllSessions`).
pub mod Owners
pub mod Suspension
use mamechat.Prelude.{
  ℕ, Bool, true, false, not, ◌&&◌, ◌||◌, Option, none, some, List, [], ◌∷◌, Text, ℤ, pos, negsuc,
  ltb, ◌==◌, any, keep, text_eq, is_some, codes, if◌then◌else◌,
}
use mamechat.Strings.{is_empty, trim_space, to_lower}
use mamechat.Chat.User.{UserSnapshot}
use mamechat.Chat.Admission.{is_privileged}
use mamechat.Accounts.{
  UserRow, SessionRow, UserSettings, Accounts, Office, set_at, revoke_where, session_dropped,
  user_dropped, all_dropped, revoking_session, revoking_user, revoking_all, reading_user,
  reading_identity, setting_ghost, updating_user, deleting_user, counting_owned,
}
use mamechat.Http.{
  Response, success, bad_request, unauthorized, forbidden, not_found, internal_error,
}
use mamechat.Http.Channels.{require_admin}
use mamechat.Http.Settings.{trimmed_text}

abbrev pub user_role : Text
user_role = codes "user"

abbrev pub admin_role : Text
admin_role = codes "admin"

abbrev pub owner_role : Text
owner_role = codes "owner"

abbrev pub active : Text
active = codes "active"

abbrev pub suspended : Text
suspended = codes "suspended"

-- The body of `adminUpdateUser`.
pub record UpdateRequest : Type 0 where
  pub display_name : Text
  pub handle : Text
  pub avatar_url : Text
  pub status : Text
  pub role : Text

abbrev pub or_default : Text → Text → Text
or_default default s = if is_empty s then default else s

-- `normalizeRole`
abbrev pub normalize_role : (ℕ → ℕ) → Text → Text
normalize_role table v = to_lower table (trim_space v)

-- The checks on the user as it is stored.
unfoldable pub owner_problem : UserRow → Text → Text → Option Response
owner_problem row status role =
    if text_eq row.role owner_role
    then (if not (text_eq status active)
        then some (bad_request (codes "owner user must stay active"))
        else if not (text_eq role owner_role)
        then some (bad_request (codes "owner role cannot be changed"))
        else none)
    else if text_eq role owner_role
    then some (bad_request (codes "owner role cannot be changed"))
    else none

abbrev update_failed : Response
update_failed = internal_error (codes "failed to update user")

-- `RevokeSessionsForUser`, whose failure is only logged, and the end of the user's connections.
unfoldable pub expel : Office → ℕ → Accounts → Accounts
expel office id s =
    let dropped = record s { notices = user_dropped id ∷ s.notices } in
    if office.fails revoking_user
    then dropped
    else record dropped { sessions = revoke_where office.now (λ row. row.user_id == id) s.sessions }

unfoldable pub store_user : Office → ℕ → UserRow → UserRow → Accounts → Accounts × Response
store_user office id old row s =
    let stored = record s { users = set_at id (some row) s.users } in
    if office.fails updating_user
    then (s, update_failed)
    else (if text_eq old.status row.status then stored else expel office id stored, success)

unfoldable pub update_checked :
    Office → ℕ → UserRow → UserRow → Option Response → Accounts → Accounts × Response
update_checked office id old row (some problem) s = (s, problem)
update_checked office id old row none s = store_user office id old row s

-- The transaction, and what follows it.
unfoldable pub update_found : Office → ℕ → UserRow → Option UserRow → Accounts → Accounts × Response
update_found office id row none s = (s, not_found (codes "user not found"))
update_found office id row (some old) s =
    if office.fails reading_identity
    then (s, update_failed)
    else update_checked office id old row (owner_problem old row.status row.role) s

unfoldable pub update_at : Office → ℤ → UserRow → Accounts → Accounts × Response
update_at office (negsuc n) row s = (s, not_found (codes "user not found"))
update_at office (pos id) row s = update_found office id row (s.users id) s

-- The row that the body stands for.
abbrev pub requested_row : (ℕ → ℕ) → UpdateRequest → UserRow
requested_row table req = record {
  display_name = trim_space req.display_name;
  handle = trimmed_text req.handle;
  avatar_url = trimmed_text req.avatar_url;
  status = or_default active (trim_space req.status);
  role = or_default user_role (normalize_role table req.role);
}

-- What is wrong with it; none if nothing is.
unfoldable pub row_problem : UserRow → Option Response
row_problem row =
    if is_empty row.display_name
    then some (bad_request (codes "displayName is required"))
    else if not (text_eq row.status active) && not (text_eq row.status suspended)
    then some (bad_request (codes "status must be active or suspended"))
    else if not (text_eq row.role user_role)
        && not (text_eq row.role admin_role)
        && not (text_eq row.role owner_role)
    then some (bad_request (codes "role must be user or admin"))
    else none

unfoldable pub update_row : Office → ℤ → UserRow → Option Response → Accounts → Accounts × Response
update_row office id row (some problem) s = (s, problem)
update_row office id row none s =
    if office.fails reading_user then (s, update_failed) else update_at office id row s

unfoldable pub update_request :
    Office → (ℕ → ℕ) → ℤ → UpdateRequest → Accounts → Accounts × Response
update_request office table id req s =
    let row = requested_row table req in update_row office id row (row_problem row) s

-- What administrators ask about users and sessions: the identifier in the path, none where it is no
-- number, and the body, none where it is not JSON of the right form.
pub data AccountRequest : Type 0 where
  update_user : Option ℤ → Option UpdateRequest → AccountRequest
  delete_user revoke_session : Option ℤ → AccountRequest
  revoke_everyone : AccountRequest

delete_found : Office → ℕ → Option UserRow → Accounts → Accounts × Response
delete_found office id none s = (s, not_found (codes "user not found"))
delete_found office id (some row) s =
    if text_eq row.role owner_role
    then (s, bad_request (codes "owner user cannot be deleted"))
    else if office.fails deleting_user
    then (s, internal_error (codes "failed to delete user"))
    else (
      record s {
        users = set_at id none s.users;
        identities = set_at id none s.identities;
        settings = set_at id none s.settings;
        sessions = keep (λ session. not (session.user_id == id)) s.sessions;
      },
      success,
    )

delete_at : Office → ℤ → Accounts → Accounts × Response
delete_at office (negsuc n) s =
    if office.fails reading_user
    then (s, internal_error (codes "failed to delete user"))
    else (s, not_found (codes "user not found"))
delete_at office (pos id) s =
    if office.fails reading_user
    then (s, internal_error (codes "failed to delete user"))
    else delete_found office id (s.users id) s

-- `RevokeSessionByID`: the session, if it was not revoked yet.
revoke_at : Office → ℤ → Accounts → Accounts × Response
revoke_at office (negsuc n) s =
    if office.fails revoking_session
    then (s, internal_error (codes "failed to revoke session"))
    else (s, not_found (codes "session not found"))
revoke_at office (pos id) s =
    if office.fails revoking_session
    then (s, internal_error (codes "failed to revoke session"))
    else if any (λ row. row.id == id && not (is_some row.revoked_at)) s.sessions
    then (
      record s {
        sessions = revoke_where office.now (λ row. row.id == id) s.sessions;
        notices = session_dropped id ∷ s.notices;
      },
      success,
    )
    else (s, not_found (codes "session not found"))

-- A request that `requireAdmin` has let through.
unfoldable pub act_on_accounts : Office → (ℕ → ℕ) → AccountRequest → Accounts → Accounts × Response
unfolding store_user update_checked update_found update_at update_row update_request delete_found
    delete_at revoke_at
act_on_accounts office table (update_user none body) s = (s, bad_request (codes "invalid user id"))
act_on_accounts office table (update_user (some id) none) s =
    (s, bad_request (codes "invalid json"))
act_on_accounts office table (update_user (some id) (some req)) s =
    update_request office table id req s
act_on_accounts office table (delete_user none) s = (s, bad_request (codes "invalid user id"))
act_on_accounts office table (delete_user (some id)) s = delete_at office id s
act_on_accounts office table (revoke_session none) s = (s, bad_request (codes "invalid session id"))
act_on_accounts office table (revoke_session (some id)) s = revoke_at office id s
act_on_accounts office table revoke_everyone s =
    if office.fails revoking_all then (s, internal_error (codes "failed to revoke sessions")) else (
      record s {
        sessions = revoke_where office.now (λ row. true) s.sessions;
        notices = all_dropped ∷ s.notices;
      },
      success,
    )

unfoldable pub gated :
    Office → (ℕ → ℕ) → AccountRequest → Option Response → Accounts → Accounts × Response
gated office table request (some refusal) s = (s, refusal)
gated office table request none s = act_on_accounts office table request s

-- The four handlers, for the user of the session; none if there is no session.
unfoldable pub handle_accounts :
    Office → (ℕ → ℕ) → Option UserSnapshot → AccountRequest → Accounts → Accounts × Response
unfolding gated
handle_accounts office table session request s =
    gated office table request (require_admin session) s
