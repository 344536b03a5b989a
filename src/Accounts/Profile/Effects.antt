-- ===== src/Accounts/Profile/Effects.antt =====
-- httpserver/routes.go: what a change of one's own account leaves as it was, and what it does.
use mamechat.Prelude.{
  ℕ, ◌≡◌, refl, Bool, false, Option, none, some, Text, ◌==◌, ==_iff, ==_refl, ap, ◌∙◌, arith,
  Bool-cases, inl, inr,
}
use mamechat.Strings.{is_empty, trim_space}
use mamechat.Chat.User.{UserSnapshot, Speaker}
use mamechat.Store.{Table}
use mamechat.Accounts.{
  UserRow, UserSettings, Accounts, Office, set_at, updating_user, setting_ghost,
  reading_user_settings, ensure_user_settings,
}
use mamechat.Accounts.Users.Owners.{KeepsOwners}
use mamechat.Accounts.Profile.{
  with_profile, update_user_profile, profile_stored, change_profile, update_account,
  user_can_manage, update_ghost_mode,
}

profile-KeepsOwners :
    (id : ℕ) (row : UserRow) (name : Text) (handle avatar : Option Text) (s : Accounts)
    → s.users id ≡ some row
    → KeepsOwners s (record s {
      users =
          set_at id
            (some (record row { display_name = name; handle = handle; avatar_url = avatar }))
            s.users;
    })
profile-KeepsOwners id row name handle avatar s found other = elim (Bool-cases (other == id)) [
  | inr e ↦ rw e (refl, λ h. h)
  | inl e ↦
      let same : other ≡ id = (==_iff other id).0 e in
      let there : s.users other ≡ some row = ap s.users same ∙ found in rw (e, there) (refl, λ h. h)
]

with_profile-KeepsOwners :
    (id : ℕ) (name : Text) (handle avatar : Option Text) (o : Option UserRow) (s : Accounts)
    → s.users id ≡ o
    → KeepsOwners s (profile_stored s (with_profile id name handle avatar o s)).0
unfolding with_profile profile_stored
with_profile-KeepsOwners id name handle avatar none s found = λ other. (refl, λ h. h)
with_profile-KeepsOwners id name handle avatar (some row) s found =
    profile-KeepsOwners id row name handle avatar s found

change_profile-KeepsOwners :
    (office : Office) (user : UserSnapshot) (body : Option (Text × Text)) (s : Accounts)
    → KeepsOwners s (change_profile office user body s).0
unfolding change_profile update_user_profile profile_stored
change_profile-KeepsOwners office user none s = λ other. (refl, λ h. h)
change_profile-KeepsOwners office user (some (name, avatar)) s =
    elim (Bool-cases (is_empty (trim_space name))) [
      | inl e ↦ rw e (λ other. (refl, λ h. h))
      | inr e ↦ elim (Bool-cases (office.fails updating_user)) [
        | inl f ↦ rw (e, f) (λ other. (refl, λ h. h))
        | inr f ↦
            rw (e, f)
              (with_profile-KeepsOwners user.id (trim_space name) _ _ (s.users user.id) s refl)
      ]
    ]

-- Whatever users send to change their own account, no one becomes an owner or ceases to be one, and
-- the active owners stay active.
update_account-KeepsOwners :
    (office : Office) (session : Option UserSnapshot) (body : Option (Text × Text)) (s : Accounts)
    → KeepsOwners s (update_account office session body s).0
unfolding update_account
update_account-KeepsOwners office none body s = λ other. (refl, λ h. h)
update_account-KeepsOwners office (some user) body s = change_profile-KeepsOwners office user body s

-- A user with settings who has switched the ghost mode, and was answered with success, is found in
-- that mode when the settings are read the next time.
ensure_user_settings-update_ghost_mode :
    (office later : Office) (table : Table) (user : UserSnapshot) (enabled : Bool) (s : Accounts)
    (row : UserSettings)
    → s.settings user.id ≡ some row
    → later.fails reading_user_settings ≡ false
    → (update_ghost_mode office table (some user) (some enabled) s).1.status ≡ 200
    → (speaker : Option Speaker) × ((ensure_user_settings later user.id
          (update_ghost_mode office table (some user) (some enabled) s).0).1
        ≡ some (speaker, enabled))
unfolding update_ghost_mode ensure_user_settings
ensure_user_settings-update_ghost_mode office later table user enabled s row there reads =
    elim (Bool-cases (user_can_manage office table user)) [
      | inr e ↦ rw e (λ h. absurd (omega arith))
      | inl e ↦ elim (Bool-cases (office.fails setting_ghost)) [
        | inl f ↦ rw (e, f) (λ h. absurd (omega arith))
        | inr f ↦ rw (e, f) (λ h. rw (reads, ==_refl user.id, there) (_, refl))
      ]
    ]
