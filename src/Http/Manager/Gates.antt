-- ===== src/Http/Manager/Gates.antt =====
-- httpserver/routes.go: whom `requireChannelManager` lets through.
use mamechat.Prelude.{
  ◌≤◌, ◌≡◌, refl, ◌⊎◌, inl, inr, true, Option, none, some, Text, lookup, arith, Bool-cases,
  Option-cases,
}
use mamechat.Chat.User.{UserSnapshot}
use mamechat.Chat.Hub.{World, Env, reading_channel}
use mamechat.Store.{ChannelRow}
use mamechat.Http.{Response}
use mamechat.Http.Manager.{passed, refused, is_manager, manage_row, require_channel_manager}

-- The session is that of the channel's owner or of an administrator.
abbrev pub Manages : Option UserSnapshot → Text → World → Type 0
Manages session slug w =
    (user : UserSnapshot) × (row : ChannelRow) × (session ≡ some user)
    × (lookup slug w.table ≡ some row)
    × (is_manager user row ≡ true)

pub require_channel_manager-cases :
    (env : Env) (session : Option UserSnapshot) (slug : Text) (w : World)
    → ((response : Response) × (require_channel_manager env session slug w ≡ refused response)
        × (400 ≤ response.status))
      ⊎ ((row : ChannelRow) × (require_channel_manager env session slug w ≡ passed row)
          × Manages session slug w)
unfolding require_channel_manager
require_channel_manager-cases env none slug w = inl (_, refl, omega arith)
require_channel_manager-cases env (some user) slug w =
    elim (Bool-cases (env.fails reading_channel)) [
      | inl e ↦ inl (rw e (_, refl, omega arith))
      | inr e ↦ elim (Option-cases (lookup slug w.table)) [
        | inl n ↦ inl (rw (e, n, manage_row) (_, refl, omega arith))
        | inr (row, found) ↦ elim (Bool-cases (is_manager user row)) [
          | inl m ↦ inr (row, rw (e, found, manage_row, m) refl, (user, row, refl, found, m))
          | inr m ↦ inl (rw (e, found, manage_row, m) (_, refl, omega arith))
        ]
      ]
    ]
