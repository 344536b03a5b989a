-- ===== src/Accounts/Users/Suspension.antt =====
-- httpserver/routes.go and auth/session.go: that a user who is suspended is out at once.
use mamechat.Prelude.{
  ℕ, ◌≡◌, refl, false, Option, none, some, List, [], ◌∷◌, Text, pos, ◌==◌, ==_refl, text_eq, All,
  arith, Bool-cases, Option-cases, inl, inr,
}
use mamechat.Chat.Time.{Time}
use mamechat.Accounts.{
  UserRow, SessionRow, Notice, Accounts, Office, revoke_where, is_live, user_dropped, revoking_user,
  reading_user, reading_identity, updating_user,
}
use mamechat.Http.{Response}
use mamechat.Accounts.Users.{
  UpdateRequest, update_user, owner_problem, row_problem, requested_row, expel, store_user,
  update_checked, update_found, update_at, update_row, update_request, act_on_accounts,
}

-- No session of the user is live, whatever the token and the time.
abbrev pub IsOut : ℕ → List SessionRow → Type 0
IsOut id rows =
    All (λ row. (now : Time) (hash : Text) → row.user_id ≡ id → is_live now hash row ≡ false) rows

revoke_where-IsOut :
    (now : Time) (id : ℕ) (rows : List SessionRow)
    → IsOut id (revoke_where now (λ row. row.user_id == id) rows)
unfolding revoke_where
revoke_where-IsOut now id [] = tt
revoke_where-IsOut now id (r ∷ rows) =
    (λ later hash h. ground arith, revoke_where-IsOut now id rows)

-- What holds of a user who has been changed to another status.
pub record IsExpelled (id : ℕ) (row : UserRow) (t : Accounts) : Type 0 where
  pub stored : t.users id ≡ some row
  pub out : IsOut id t.sessions
  pub disconnected : List Notice
  pub told : t.notices ≡ user_dropped id ∷ disconnected

store_user-IsExpelled :
    (office : Office) (id : ℕ) (old row : UserRow) (s : Accounts)
    → office.fails revoking_user ≡ false
    → text_eq old.status row.status ≡ false
    → (store_user office id old row s).1.status ≡ 200
    → IsExpelled id row (store_user office id old row s).0
unfolding store_user expel
store_user-IsExpelled office id old row s r d = elim (Bool-cases (office.fails updating_user)) [
  | inl e ↦ rw e (λ h. absurd (omega arith))
  | inr e ↦
      rw (e, d, r)
        (λ h. record {
          stored = rw (==_refl id) refl;
          out = revoke_where-IsOut office.now id s.sessions;
          disconnected = s.notices;
          told = refl;
        })
]

owner_problem-status :
    (old : UserRow) (status role : Text) (problem : Response)
    → owner_problem old status role ≡ some problem
    → problem.status ≡ 400
unfolding owner_problem
owner_problem-status old status role problem h = ground arith

row_problem-status :
    (row : UserRow) (problem : Response) → row_problem row ≡ some problem → problem.status ≡ 400
unfolding row_problem
row_problem-status row problem h = ground arith

update_found-IsExpelled :
    (office : Office) (id : ℕ) (old row : UserRow) (s : Accounts)
    → office.fails revoking_user ≡ false
    → text_eq old.status row.status ≡ false
    → (update_found office id row (some old) s).1.status ≡ 200
    → IsExpelled id row (update_found office id row (some old) s).0
unfolding update_found update_checked owner_problem
update_found-IsExpelled office id old row s r d =
    elim (Bool-cases (office.fails reading_identity)) [
      | inl e ↦ rw e (λ h. absurd (omega arith))
      | inr e ↦ elim (Option-cases (owner_problem old row.status row.role)) [
        | inr (problem, f) ↦
            rw (e, f, update_checked)
              (λ (h : problem.status ≡ 200).
                let bad = owner_problem-status old row.status row.role problem f in
                absurd (omega arith))
        | inl f ↦ rw (e, f, update_checked) (store_user-IsExpelled office id old row s r d)
      ]
    ]

update_row-IsExpelled :
    (office : Office) (id : ℕ) (old row : UserRow) (o : Option Response) (s : Accounts)
    → row_problem row ≡ o
    → office.fails revoking_user ≡ false
    → s.users id ≡ some old
    → text_eq old.status row.status ≡ false
    → (update_row office (pos id) row o s).1.status ≡ 200
    → IsExpelled id row (update_row office (pos id) row o s).0
unfolding update_row update_at
update_row-IsExpelled office id old row (some problem) s e r u d =
    λ h. let bad = row_problem-status row problem e in absurd (omega arith)
update_row-IsExpelled office id old row none s e r u d =
    elim (Bool-cases (office.fails reading_user)) [
      | inl f ↦ rw f (λ h. absurd (omega arith))
      | inr f ↦ rw (f, u) (update_found-IsExpelled office id old row s r d)
    ]

-- Where the statement that revokes the sessions of a user does not fail, an update by an
-- administrator that gives a user who exists another status, and is answered with success, has
-- stored the user as requested, told the hub to end the user's connections, and left no session of
-- the user that is live at any time.
pub update_user-IsExpelled :
    (office : Office) (table : ℕ → ℕ) (id : ℕ) (req : UpdateRequest) (old : UserRow) (s : Accounts)
    → s.users id ≡ some old
    → text_eq old.status (requested_row table req).status ≡ false
    → office.fails revoking_user ≡ false
    → (act_on_accounts office table (update_user (some (pos id)) (some req)) s).1.status ≡ 200
    → IsExpelled id
        (requested_row table req)
        (act_on_accounts office table (update_user (some (pos id)) (some req)) s).0
unfolding act_on_accounts update_request
update_user-IsExpelled office table id req old s u d r =
    update_row-IsExpelled office id old (requested_row table req) _ s refl r u d
