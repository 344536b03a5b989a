-- ===== src/Accounts/Users/Owners.antt =====
-- httpserver/routes.go: that administrators cannot change who owns the service.
use mamechat.Prelude.{
  ℕ, ◌≡◌, refl, sym, Bool, true, false, ◌&&◌, Option, none, some, ℤ, pos, negsuc, ◌==◌, ==_iff,
  text_eq, arith, Bool-cases, Option-cases, inl, inr,
}
use mamechat.Chat.User.{UserSnapshot}
use mamechat.Accounts.{
  UserRow, Accounts, Office, set_at, revoking_user, revoking_all, reading_user, reading_identity,
  updating_user, deleting_user,
}
use mamechat.Http.{Response}
use mamechat.Http.Channels.{require_admin}
use mamechat.Accounts.Users.{
  active, owner_role, AccountRequest, update_user, delete_user, revoke_session, revoke_everyone,
  owner_problem, expel, store_user, update_checked, update_found, update_at, update_row,
  update_request, requested_row, delete_found, delete_at, revoke_at, act_on_accounts, gated,
  handle_accounts,
}

abbrev pub is_owner_row : Option UserRow → Bool
is_owner_row none = false
is_owner_row (some row) = text_eq row.role owner_role

abbrev pub is_active_owner_row : Option UserRow → Bool
is_active_owner_row none = false
is_active_owner_row (some row) = text_eq row.role owner_role && text_eq row.status active

-- The same users are owners, and the active among them stay active.
abbrev pub KeepsOwners : Accounts → Accounts → Type 0
KeepsOwners s t =
    (id : ℕ)
    → (is_owner_row (t.users id) ≡ is_owner_row (s.users id))
      × (is_active_owner_row (s.users id) ≡ true → is_active_owner_row (t.users id) ≡ true)

same-KeepsOwners : (s t : Accounts) → t.users ≡ s.users → KeepsOwners s t
same-KeepsOwners s t e id = rw e (refl, λ h. h)

owner_problem-none :
    (old row : UserRow)
    → owner_problem old row.status row.role ≡ none
    → (text_eq row.role owner_role ≡ text_eq old.role owner_role)
      × (text_eq old.role owner_role ≡ true → text_eq row.status active ≡ true)
unfolding owner_problem
owner_problem-none old row h = ground arith

set_at-KeepsOwners :
    (id : ℕ) (old row : UserRow) (s : Accounts)
    → s.users id ≡ some old
    → owner_problem old row.status row.role ≡ none
    → (other : ℕ)
    → (is_owner_row (set_at id (some row) s.users other) ≡ is_owner_row (s.users other))
      × (is_active_owner_row (s.users other) ≡ true
          → is_active_owner_row (set_at id (some row) s.users other) ≡ true)
set_at-KeepsOwners id old row s u p other = elim (Bool-cases (other == id)) [
  | inr e ↦ rw e (refl, λ h. h)
  | inl e ↦
      let found : s.users other ≡ some old = rw ((==_iff other id).0 e) u in
      let (kept, stays) = owner_problem-none old row p in rw (e, found) (kept, λ h. ground arith)
]

expel-users : (office : Office) (id : ℕ) (s : Accounts) → (expel office id s).users ≡ s.users
unfolding expel
expel-users office id s = elim (Bool-cases (office.fails revoking_user)) [
  | inl e ↦ rw e refl
  | inr e ↦ rw e refl
]

store_user-KeepsOwners :
    (office : Office) (id : ℕ) (old row : UserRow) (s : Accounts)
    → s.users id ≡ some old
    → owner_problem old row.status row.role ≡ none
    → KeepsOwners s (store_user office id old row s).0
unfolding store_user
store_user-KeepsOwners office id old row s u p = elim (Bool-cases (office.fails updating_user)) [
  | inl e ↦ rw e (same-KeepsOwners s s refl)
  | inr e ↦ elim (Bool-cases (text_eq old.status row.status)) [
    | inl f ↦ rw (e, f) (set_at-KeepsOwners id old row s u p)
    | inr f ↦ rw (e, f) (rw (expel-users office id _) (set_at-KeepsOwners id old row s u p))
  ]
]

update_found-KeepsOwners :
    (office : Office) (id : ℕ) (row : UserRow) (o : Option UserRow) (s : Accounts)
    → s.users id ≡ o
    → KeepsOwners s (update_found office id row o s).0
unfolding update_found update_checked
update_found-KeepsOwners office id row none s u = same-KeepsOwners s s refl
update_found-KeepsOwners office id row (some old) s u =
    elim (Bool-cases (office.fails reading_identity)) [
      | inl e ↦ rw e (same-KeepsOwners s s refl)
      | inr e ↦ elim (Option-cases (owner_problem old row.status row.role)) [
        | inr (problem, f) ↦ rw (e, f, update_checked) (same-KeepsOwners s s refl)
        | inl f ↦ rw (e, f, update_checked) (store_user-KeepsOwners office id old row s u f)
      ]
    ]

update_at-KeepsOwners :
    (office : Office) (id : ℤ) (row : UserRow) (s : Accounts)
    → KeepsOwners s (update_at office id row s).0
unfolding update_at
update_at-KeepsOwners office (negsuc n) row s = same-KeepsOwners s s refl
update_at-KeepsOwners office (pos id) row s =
    update_found-KeepsOwners office id row (s.users id) s refl

update_row-KeepsOwners :
    (office : Office) (id : ℤ) (row : UserRow) (o : Option Response) (s : Accounts)
    → KeepsOwners s (update_row office id row o s).0
unfolding update_row
update_row-KeepsOwners office id row (some problem) s = same-KeepsOwners s s refl
update_row-KeepsOwners office id row none s = elim (Bool-cases (office.fails reading_user)) [
  | inl e ↦ rw e (same-KeepsOwners s s refl)
  | inr e ↦ rw e (update_at-KeepsOwners office id row s)
]

delete_found-KeepsOwners :
    (office : Office) (id : ℕ) (o : Option UserRow) (s : Accounts)
    → s.users id ≡ o
    → KeepsOwners s (delete_found office id o s).0
unfolding delete_found
delete_found-KeepsOwners office id none s u = same-KeepsOwners s s refl
delete_found-KeepsOwners office id (some row) s u =
    elim (Bool-cases (text_eq row.role owner_role)) [
      | inl e ↦ rw e (same-KeepsOwners s s refl)
      | inr e ↦ elim (Bool-cases (office.fails deleting_user)) [
        | inl f ↦ rw (e, f) (same-KeepsOwners s s refl)
        | inr f ↦
            rw (e, f)
              (λ other. elim (Bool-cases (other == id)) [
                | inr g ↦ rw g (refl, λ h. h)
                | inl g ↦
                    let found : s.users other ≡ some row = rw ((==_iff other id).0 g) u in
                    rw (g, found) (sym e, λ h. ground arith)
              ])
      ]
    ]

delete_at-KeepsOwners :
    (office : Office) (id : ℤ) (s : Accounts) → KeepsOwners s (delete_at office id s).0
unfolding delete_at
delete_at-KeepsOwners office (negsuc n) s = elim (Bool-cases (office.fails reading_user)) [
  | inl e ↦ rw e (same-KeepsOwners s s refl)
  | inr e ↦ rw e (same-KeepsOwners s s refl)
]
delete_at-KeepsOwners office (pos id) s = elim (Bool-cases (office.fails reading_user)) [
  | inl e ↦ rw e (same-KeepsOwners s s refl)
  | inr e ↦ rw e (delete_found-KeepsOwners office id (s.users id) s refl)
]

revoke_at-users :
    (office : Office) (id : ℤ) (s : Accounts) → (revoke_at office id s).0.users ≡ s.users
unfolding revoke_at
revoke_at-users office (negsuc n) s = ground arith
revoke_at-users office (pos id) s = ground arith

act_on_accounts-KeepsOwners :
    (office : Office) (table : ℕ → ℕ) (request : AccountRequest) (s : Accounts)
    → KeepsOwners s (act_on_accounts office table request s).0
unfolding act_on_accounts update_request
act_on_accounts-KeepsOwners office table (update_user none body) s = same-KeepsOwners s s refl
act_on_accounts-KeepsOwners office table (update_user (some id) none) s = same-KeepsOwners s s refl
act_on_accounts-KeepsOwners office table (update_user (some id) (some req)) s =
    update_row-KeepsOwners office id (requested_row table req) _ s
act_on_accounts-KeepsOwners office table (delete_user none) s = same-KeepsOwners s s refl
act_on_accounts-KeepsOwners office table (delete_user (some id)) s =
    delete_at-KeepsOwners office id s
act_on_accounts-KeepsOwners office table (revoke_session none) s = same-KeepsOwners s s refl
act_on_accounts-KeepsOwners office table (revoke_session (some id)) s =
    same-KeepsOwners s (revoke_at office id s).0 (revoke_at-users office id s)
act_on_accounts-KeepsOwners office table revoke_everyone s =
    elim (Bool-cases (office.fails revoking_all)) [
      | inl e ↦ rw e (same-KeepsOwners s s refl)
      | inr e ↦ rw e (λ id. (refl, λ h. h))
    ]

-- No request on the accounts makes a user an owner, takes that role from one, suspends an active
-- owner or deletes one.
pub handle_accounts-KeepsOwners :
    (office : Office) (table : ℕ → ℕ) (session : Option UserSnapshot) (request : AccountRequest)
    (s : Accounts)
    → KeepsOwners s (handle_accounts office table session request s).0
unfolding handle_accounts
handle_accounts-KeepsOwners office table session request s =
    elim (Option-cases (require_admin session)) [
      | inr (refusal, e) ↦ rw (e, gated) (same-KeepsOwners s s refl)
      | inl e ↦ rw (e, gated) (act_on_accounts-KeepsOwners office table request s)
    ]
