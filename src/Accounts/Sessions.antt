-- ===== src/Accounts/Sessions.antt =====
-- auth/session.go: who a session stands for.
use mamechat.Prelude.{
  ℕ, ◌+◌, ◌<◌, ◌≡◌, refl, Bool, true, false, not, ◌&&◌, ◌||◌, Option, none, some, List, [], ◌∷◌,
  Text, ltb, text_eq, text_eq_refl, codes, arith, Bool-cases, Option-cases, inl, inr,
}
use mathlib.Core.List.{Memᴰ}
use mamechat.Strings.{is_empty}
use mamechat.Chat.Time.{Time}
use mamechat.Chat.User.{Speaker}
use mamechat.Accounts.{
  UserRow, SessionRow, Identity, Accounts, Office, SessionSnapshot, inserting_session,
  reading_session, revoking_session, reading_user, reading_identity, create_session, is_live,
  live_session, revoke_where, ensure_user_settings, snapshot_from_db, with_settings, with_user,
  with_session, current_session, logout, UserSettings, settings_found, reading_user_settings,
  creating_settings,
}

live_session-is_live :
    (now : Time) (hash : Text) (rows : List SessionRow) {row : SessionRow}
    → live_session now hash rows ≡ some row
    → is_live now hash row ≡ true
unfolding live_session
live_session-is_live now hash [] = λ e. cc
live_session-is_live now hash (r ∷ rows) {row} = elim (Bool-cases (is_live now hash r)) [
  | inl h ↦ rw h (λ (e : some r ≡ some row). let same : r ≡ row = cc e in rw (← same) h)
  | inr h ↦ rw h (live_session-is_live now hash rows)
]

live_session-Mem :
    (now : Time) (hash : Text) (rows : List SessionRow) {row : SessionRow}
    → live_session now hash rows ≡ some row
    → Memᴰ row rows
unfolding live_session
live_session-Mem now hash [] {row} = λ (e : none ≡ some row). cc
live_session-Mem now hash (r ∷ rows) {row} = elim (Bool-cases (is_live now hash r)) [
  | inl h ↦ rw h (λ (e : some r ≡ some row). let same : row ≡ r = cc e in Memᴰ.head same)
  | inr h ↦ rw h (λ e. Memᴰ.tail (live_session-Mem now hash rows e))
]

-- What a session that is accepted rests on: a row of the table that is live under the hash of the
-- cookie, and the row of its user.
abbrev pub IsAccepted : Office → Bool → Text → Accounts → SessionSnapshot → Type 0
IsAccepted office allow_inactive cookie s snapshot =
    (session : SessionRow) × (row : UserRow) × Memᴰ session s.sessions
    × (is_live office.now (office.hash_token cookie) session ≡ true)
    × (snapshot.id ≡ session.id)
    × (snapshot.user.id ≡ session.user_id)
    × (s.users session.user_id ≡ some row)
    × ((allow_inactive || text_eq row.status (codes "active")) ≡ true)
    × (snapshot.user.role ≡ row.role)

with_settings-role :
    (session : SessionRow) (row : UserRow) (identity : Option Identity)
    (p : Accounts × Option (Option Speaker × Bool)) (snapshot : SessionSnapshot)
    → (with_settings session row identity p).1 ≡ some snapshot
    → (snapshot.id ≡ session.id)
      × (snapshot.user.id ≡ session.user_id)
      × (snapshot.user.role ≡ row.role)
unfolding with_settings snapshot_from_db
with_settings-role session row identity (s, none) snapshot h = cc
with_settings-role session row identity (s, some (speaker, ghost)) snapshot h = (cc, cc, cc)

with_user-IsAccepted :
    (office : Office) (allow_inactive : Bool) (cookie : Text) (s : Accounts) (session : SessionRow)
    (o : Option UserRow) (snapshot : SessionSnapshot)
    → s.users session.user_id ≡ o
    → Memᴰ session s.sessions
    → is_live office.now (office.hash_token cookie) session ≡ true
    → (with_user office allow_inactive session o s).1 ≡ some snapshot
    → IsAccepted office allow_inactive cookie s snapshot
unfolding with_user
with_user-IsAccepted office allow_inactive cookie s session none snapshot u stored live = λ h. cc
with_user-IsAccepted office allow_inactive cookie s session (some row) snapshot u stored live =
    elim (Bool-cases (not allow_inactive && not (text_eq row.status (codes "active")))) [
      | inl e ↦ rw e (λ (h : none ≡ some snapshot). cc)
      | inr e ↦ elim (Bool-cases (office.fails reading_identity)) [
        | inl f ↦ rw (e, f) (λ (h : none ≡ some snapshot). cc)
        | inr f ↦
            rw (e, f)
              (λ h.
                let (a, b, c) = with_settings-role session row _ _ snapshot h in
                (session, row, stored, live, a, b, u, ground arith, c))
      ]
    ]

-- A session is accepted only for a cookie whose token has a session in the table that is neither
-- revoked nor over, and for a user who exists and, unless suspended users are asked for, is active; the role is
-- the one in the table.
pub current_session-IsAccepted :
    (office : Office) (allow_inactive : Bool) (cookie : Text) (s : Accounts)
    (snapshot : SessionSnapshot)
    → (current_session office allow_inactive cookie s).1 ≡ some snapshot
    → IsAccepted office allow_inactive cookie s snapshot
unfolding current_session
current_session-IsAccepted office allow_inactive cookie s snapshot =
    elim (Bool-cases (is_empty cookie || office.fails reading_session)) [
      | inl e ↦ rw e (λ (h : none ≡ some snapshot). cc)
      | inr e ↦
          elim (Option-cases (live_session office.now (office.hash_token cookie) s.sessions)) [
            | inl n ↦ rw (e, n, with_session) (λ (h : none ≡ some snapshot). cc)
            | inr (session, found) ↦ elim (Bool-cases (office.fails reading_user)) [
              | inl f ↦ rw (e, found, with_session, f) (λ (h : none ≡ some snapshot). cc)
              | inr f ↦
                  rw (e, found, with_session, f)
                    (with_user-IsAccepted office allow_inactive cookie s session _ snapshot refl
                      (live_session-Mem office.now (office.hash_token cookie) s.sessions found)
                      (live_session-is_live office.now (office.hash_token cookie) s.sessions found))
            ]
          ]
    ]

live_session-revoke :
    (now later : Time) (hash : Text) (rows : List SessionRow)
    → live_session later hash (revoke_where now (λ row. text_eq row.token_hash hash) rows) ≡ none
unfolding live_session revoke_where
live_session-revoke now later hash [] = refl
live_session-revoke now later hash (r ∷ rows) =
    ground (arith, live_session-revoke now later hash rows)

current_session-no_live :
    (office : Office) (allow_inactive : Bool) (cookie : Text) (s : Accounts)
    → live_session office.now (office.hash_token cookie) s.sessions ≡ none
    → (current_session office allow_inactive cookie s).1 ≡ none
unfolding current_session
current_session-no_live office allow_inactive cookie s n =
    elim (Bool-cases (is_empty cookie || office.fails reading_session)) [
      | inl e ↦ rw e refl
      | inr e ↦ rw (e, n, with_session) refl
    ]

current_session-empty :
    (office : Office) (allow_inactive : Bool) (cookie : Text) (s : Accounts)
    → is_empty cookie ≡ true
    → (current_session office allow_inactive cookie s).1 ≡ none
unfolding current_session
current_session-empty office allow_inactive cookie s e = rw e refl

-- Right after a logout that succeeded, the cookie is accepted no longer, whatever the clock and the
-- services of the server that is asked, and also where suspended users are let in.
pub current_session-logout :
    (office later : Office) (allow_inactive : Bool) (cookie : Text) (s : Accounts)
    → later.hash_token cookie ≡ office.hash_token cookie
    → (logout office cookie s).1 ≡ true
    → (current_session later allow_inactive cookie (logout office cookie s).0).1 ≡ none
unfolding logout
current_session-logout office later allow_inactive cookie s same =
    elim (Bool-cases (is_empty cookie)) [
      | inl e ↦ λ h. current_session-empty later allow_inactive cookie _ e
      | inr e ↦ elim (Bool-cases (office.fails revoking_session)) [
        | inl f ↦ rw (e, f) (λ (h : false ≡ true). cc)
        | inr f ↦
            rw (e, f)
              (λ h. current_session-no_live later allow_inactive cookie _ (
                rw same
                  (live_session-revoke office.now later.now (office.hash_token cookie) s.sessions)))
      ]
    ]

-- The calls that accept a session all succeed.
abbrev pub IsReachable : Office → Type 0
IsReachable office =
    (office.fails reading_session ≡ false)
    × (office.fails reading_user ≡ false)
    × (office.fails reading_identity ≡ false)
    × (office.fails reading_user_settings ≡ false)
    × (office.fails creating_settings ≡ false)

settings_found-some :
    (office : Office) (user_id : ℕ) (o : Option UserSettings) (s : Accounts)
    → office.fails creating_settings ≡ false
    → (v : Option Speaker × Bool) × ((settings_found office user_id o s).1 ≡ some v)
unfolding settings_found
settings_found-some office user_id none s f = rw f (_, refl)
settings_found-some office user_id (some row) s f = (_, refl)

ensure_user_settings-some :
    (office : Office) (user_id : ℕ) (s : Accounts)
    → office.fails reading_user_settings ≡ false
    → office.fails creating_settings ≡ false
    → (v : Option Speaker × Bool) × ((ensure_user_settings office user_id s).1 ≡ some v)
unfolding ensure_user_settings
ensure_user_settings-some office user_id s r f =
    rw r (settings_found-some office user_id (s.settings user_id) s f)

with_settings-some :
    (session : SessionRow) (row : UserRow) (identity : Option Identity)
    (p : Accounts × Option (Option Speaker × Bool))
    → (v : Option Speaker × Bool) × (p.1 ≡ some v)
    → (snapshot : SessionSnapshot) × ((with_settings session row identity p).1 ≡ some snapshot)
      × (snapshot.id ≡ session.id)
      × (snapshot.user.id ≡ session.user_id)
unfolding with_settings snapshot_from_db
with_settings-some session row identity (s, none) (v, e) = absurd (cc e)
with_settings-some session row identity (s, some v) e = (_, refl, refl, refl)

-- A session that was created for an active user is accepted, by its token and until it is over, and
-- stands for that user, if the token is not empty and the tables can be read and, for settings that
-- are missing, written.
pub current_session-create :
    (office later : Office) (id user_id : ℕ) (token : Text) (s : Accounts) (row : UserRow)
    → (create_session office id token user_id s).1 ≡ true
    → is_empty token ≡ false
    → later.hash_token token ≡ office.hash_token token
    → later.now < office.now + office.session_ttl
    → s.users user_id ≡ some row
    → text_eq row.status (codes "active") ≡ true
    → IsReachable later
    → (snapshot : SessionSnapshot) × ((current_session later false token
          (create_session office id token user_id s).0).1
        ≡ some snapshot)
      × (snapshot.id ≡ id)
      × (snapshot.user.id ≡ user_id)
unfolding current_session create_session live_session
current_session-create office later id user_id token s row created solid same before u active r =
    let ok : office.fails inserting_session ≡ false = ground arith in
    let timely : ltb later.now (office.now + office.session_ttl) ≡ true = ground arith in
    let hit : text_eq (office.hash_token token) (office.hash_token token) ≡ true =
      text_eq_refl (office.hash_token token) in
    rw
      (
        ok, solid, r.0, same, live_session, hit, timely, with_session, r.1, u, with_user, active,
        r.2,
      )
      (with_settings-some
        (record {
          id = id;
          user_id = user_id;
          token_hash = office.hash_token token;
          expires_at = office.now + office.session_ttl;
          revoked_at = none;
        })
        row (s.identities user_id) (ensure_user_settings later user_id _)
        (ensure_user_settings-some later user_id _ r.3 r.4))
