-- ===== src/Http/Authority.antt =====
-- httpserver/routes.go: who can change a channel over HTTP.
use mamechat.Prelude.{
  ℕ, ◌≤◌, ◌≡◌, refl, ◌⊎◌, inl, inr, true, Option, none, some, List, Text, lookup, arith, Bool-cases,
  Option-cases,
}
use mamechat.Access.{Url, Decoder, Entry}
use mamechat.Chat.User.{UserSnapshot}
use mamechat.Chat.Admission.{Answered, is_privileged}
use mamechat.Chat.Hub.{World, Env, reading_channel}
use mamechat.Http.{Response}
use mamechat.Http.Manager.{ManagerRequest, is_manager, through, handle_manager}
use mamechat.Http.Manager.Gates.{Manages, require_channel_manager-cases}
use mamechat.Http.Settings.{SettingsRequest, update_channel_settings, settings_of}
use mamechat.Http.Channels.{
  Sweep, sweep, sweep_found, AdminRequest, administer, admin_gate, require_admin, CreateRequest,
  admin_create_channel, admin_created,
}
use mamechat.Chat.Post.{Board}
use mamechat.Accounts.{Accounts, Office}
use mamechat.Accounts.Users.{AccountRequest, handle_accounts, gated}
use mamechat.Http.Dictionary.{Clerk, Dictionary, DictionaryRequest, handle_dictionary, change_as}
use mamechat.Http.Messages.{admin_delete_message, admin_delete_id}

-- An error is answered and nothing has changed.
abbrev pub IsRefused : {S : Type 0} → S → S × Response → Type 0
IsRefused s result = (result.0 ≡ s) × (400 ≤ result.1.status)

-- What the manager of a channel can ask.
pub data OwnerCall : Type 0 where
  manage : ManagerRequest → OwnerCall
  sweep_up : Sweep → OwnerCall
  configure : Answered Text → Option SettingsRequest → OwnerCall

handle_manager-IsRefused :
    (env : Env) (session : Option UserSnapshot) (slug : Text) (request : ManagerRequest) (w : World)
    → IsRefused w (handle_manager env session slug request w) ⊎ Manages session slug w
unfolding handle_manager
handle_manager-IsRefused env session slug request w =
    elim (require_channel_manager-cases env session slug w) [
      | inl (response, e, bad) ↦ inl (rw (e, through) (refl, bad))
      | inr (row, e, m) ↦ inr m
    ]

sweep-IsRefused :
    (env : Env) (session : Option UserSnapshot) (slug : Text) (what : Sweep) (w : World)
    → IsRefused w (sweep env session slug what w) ⊎ Manages session slug w
unfolding sweep
sweep-IsRefused env none slug what w = inl (refl, omega arith)
sweep-IsRefused env (some user) slug what w = elim (Bool-cases (env.fails reading_channel)) [
  | inl e ↦ inl (rw e (refl, omega arith))
  | inr e ↦ elim (Option-cases (lookup slug w.table)) [
    | inl n ↦ inl (rw (e, n, sweep_found) (refl, omega arith))
    | inr (row, found) ↦ elim (Bool-cases (is_manager user row)) [
      | inl m ↦ inr (user, row, refl, found, m)
      | inr m ↦ inl (rw (e, found, sweep_found, m) (refl, omega arith))
    ]
  ]
]

module _ (table : ℕ → ℕ) (parse_url : Text → Option Url) (decoder : Decoder)
    (marshal : List Entry → Option Text) where
  settings-IsRefused :
      (env : Env) (session : Option UserSnapshot) (slug : Text) (setting : Answered Text)
      (body : Option SettingsRequest) (w : World)
      → IsRefused w
          (update_channel_settings table parse_url decoder marshal env session slug setting body w)
        ⊎ Manages session slug w
  unfolding update_channel_settings
  settings-IsRefused env none slug setting body w = inl (refl, omega arith)
  settings-IsRefused env (some user) slug setting body w =
      elim (Bool-cases (env.fails reading_channel)) [
        | inl e ↦ inl (rw e (refl, omega arith))
        | inr e ↦ elim (Option-cases (lookup slug w.table)) [
          | inl n ↦ inl (rw (e, n, settings_of) (refl, omega arith))
          | inr (row, found) ↦ elim (Bool-cases (is_manager user row)) [
            | inl m ↦ inr (user, row, refl, found, m)
            | inr m ↦ inl (rw (e, found, settings_of, m) (refl, omega arith))
          ]
        ]
      ]

  unfoldable pub answer_owner :
      Env → Option UserSnapshot → Text → OwnerCall → World → World × Response
  answer_owner env session slug (manage request) w = handle_manager env session slug request w
  answer_owner env session slug (sweep_up what) w = sweep env session slug what w
  answer_owner env session slug (configure setting body) w =
      update_channel_settings table parse_url decoder marshal env session slug setting body w

  -- A request to manage, set up, clear or delete a channel answers an error and changes nothing,
  -- unless the session is that of the owner of the channel or of an administrator.
  pub answer_owner-IsRefused :
      (env : Env) (session : Option UserSnapshot) (slug : Text) (call : OwnerCall) (w : World)
      → IsRefused w (answer_owner env session slug call w) ⊎ Manages session slug w
  unfolding answer_owner
  answer_owner-IsRefused env session slug (manage request) w =
      handle_manager-IsRefused env session slug request w
  answer_owner-IsRefused env session slug (sweep_up what) w =
      sweep-IsRefused env session slug what w
  answer_owner-IsRefused env session slug (configure setting body) w =
      settings-IsRefused env session slug setting body w

-- The session is that of an administrator.
abbrev pub Administers : Option UserSnapshot → Type 0
Administers session =
    (user : UserSnapshot) × (session ≡ some user) × (is_privileged user.role ≡ true)

require_admin-cases :
    (session : Option UserSnapshot)
    → ((refusal : Response) × (require_admin session ≡ some refusal) × (400 ≤ refusal.status))
      ⊎ Administers session
unfolding require_admin
require_admin-cases none = inl (_, refl, omega arith)
require_admin-cases (some user) = elim (Bool-cases (is_privileged user.role)) [
  | inl e ↦ inr (user, refl, e)
  | inr e ↦ inl (rw e (_, refl, omega arith))
]

handle_accounts-IsRefused :
    (office : Office) (table : ℕ → ℕ) (session : Option UserSnapshot) (request : AccountRequest)
    (s : Accounts) (refusal : Response)
    → require_admin session ≡ some refusal
    → 400 ≤ refusal.status
    → IsRefused s (handle_accounts office table session request s)
unfolding handle_accounts gated
handle_accounts-IsRefused office table session request s refusal e bad = rw e (refl, bad)

handle_dictionary-IsRefused :
    (clerk : Clerk) (session : Option UserSnapshot) (request : DictionaryRequest) (d : Dictionary)
    (refusal : Response)
    → require_admin session ≡ some refusal
    → 400 ≤ refusal.status
    → IsRefused d (handle_dictionary clerk session request d)
unfolding handle_dictionary change_as
handle_dictionary-IsRefused clerk session request d refusal e bad = rw e (refl, bad)

admin_delete_message-IsRefused :
    (env : Env) (session : Option UserSnapshot) (raw : Text) (b : Board) (refusal : Response)
    → require_admin session ≡ some refusal
    → 400 ≤ refusal.status
    → IsRefused b (admin_delete_message env session raw b)
unfolding admin_delete_message admin_delete_id
admin_delete_message-IsRefused env session raw b refusal e bad = rw e (refl, bad)

-- What an administrator can ask for: a setting or the deletion of a channel, a new channel, a change
-- of the accounts or the sessions, of the dictionary of readings, or the deletion of a message.
pub data AdminCall : Type 0 where
  on_channel : Text → AdminRequest → AdminCall
  new_channel : ℕ → Option CreateRequest → AdminCall
  on_accounts : AccountRequest → AdminCall
  on_dictionary : DictionaryRequest → AdminCall
  on_message : Text → AdminCall

-- The handler of the call answers an error and leaves what it works on as it was.
abbrev pub RefusesCall :
    Env
    → Office
    → Clerk
    → (ℕ → ℕ)
    → Option UserSnapshot
    → AdminCall
    → Board
    → Accounts
    → Dictionary
    → Type 0
RefusesCall env office clerk table session (on_channel slug request) b s d =
    IsRefused b.world (administer env session slug request b.world)
RefusesCall env office clerk table session (new_channel id body) b s d =
    IsRefused b.world (admin_create_channel env table id session body b.world)
RefusesCall env office clerk table session (on_accounts request) b s d =
    IsRefused s (handle_accounts office table session request s)
RefusesCall env office clerk table session (on_dictionary request) b s d =
    IsRefused d (handle_dictionary clerk session request d)
RefusesCall env office clerk table session (on_message raw) b s d =
    IsRefused b (admin_delete_message env session raw b)

refused-RefusesCall :
    (env : Env) (office : Office) (clerk : Clerk) (table : ℕ → ℕ) (session : Option UserSnapshot)
    (call : AdminCall) (b : Board) (s : Accounts) (d : Dictionary) (refusal : Response)
    → require_admin session ≡ some refusal
    → 400 ≤ refusal.status
    → RefusesCall env office clerk table session call b s d
unfolding administer admin_create_channel
refused-RefusesCall env office clerk table session (on_channel slug request) b s d r e bad =
    rw (e, admin_gate) (refl, bad)
refused-RefusesCall env office clerk table session (new_channel id body) b s d r e bad =
    rw (e, admin_created) (refl, bad)
refused-RefusesCall env office clerk table session (on_accounts request) b s d r e bad =
    handle_accounts-IsRefused office table session request s r e bad
refused-RefusesCall env office clerk table session (on_dictionary request) b s d r e bad =
    handle_dictionary-IsRefused clerk session request d r e bad
refused-RefusesCall env office clerk table session (on_message raw) b s d r e bad =
    admin_delete_message-IsRefused env session raw b r e bad

-- An administrator's request to set or delete a channel, to create one, to change users, sessions or
-- the dictionary of readings, or to delete any message answers an error and changes nothing, unless
-- the session is that of an administrator.
pub answer_admin-RefusesCall :
    (env : Env) (office : Office) (clerk : Clerk) (table : ℕ → ℕ) (session : Option UserSnapshot)
    (call : AdminCall) (b : Board) (s : Accounts) (d : Dictionary)
    → RefusesCall env office clerk table session call b s d ⊎ Administers session
answer_admin-RefusesCall env office clerk table session call b s d =
    elim (require_admin-cases session) [
      | inr a ↦ inr a
      | inl (refusal, e, bad) ↦
          inl (refused-RefusesCall env office clerk table session call b s d refusal e bad)
    ]
