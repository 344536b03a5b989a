-- ===== src/Http/Channels/Creation.antt =====
-- httpserver/routes.go: what a channel that was created looks like.
use mamechat.Prelude.{
  ℕ, ◌≤◌, ◌≡◌, refl, true, false, ◌||◌, Option, none, some, Text, All, length, lookup, insert,
  lookup-insert, lookup-insert_self, is_some, text_eq, arith, Bool-cases, inl, inr,
}
use mamechat.Strings.{is_empty}
use mamechat.Chat.User.{UserSnapshot}
use mamechat.Chat.Hub.{World, Env, creating_channel}
use mamechat.Store.{ChannelRow, Table}
use mamechat.Http.{Response}
use mamechat.Http.Settings.{validate_channel_text}
use mamechat.Http.Settings.Steps.{
  IsSound, validate_channel_text_lem, length-or_slug, length-trimmed_text,
}
use mamechat.Http.Channels.{
  CreateRequest, is_slug, insert_channel, create_checked, create_for, create_channel,
}
use mamechat.Http.Channels.Slugs.{IsSlugRune, is_slug_lem}

-- After a success, the channel of the slug is new, closed, owned by the user and within its bounds;
-- the slug is one, and the other channels are as they were.
pub record IsCreated (user : UserSnapshot) (w v : World) : Type 0 where
  pub slug : Text
  pub row : ChannelRow
  pub fresh : is_some (lookup slug w.table) ≡ false
  pub found : lookup slug v.table ≡ some row
  pub others :
      (other : Text) → text_eq slug other ≡ false → lookup other v.table ≡ lookup other w.table
  pub named : (8 ≤ length slug) × (length slug ≤ 50) × All IsSlugRune slug
  pub owned : row.owner_user_id ≡ some user.id
  pub closed : is_some row.suspended_at ≡ true
  pub sound : IsSound row

lookup-insert_other :
    (slug other : Text) (row : ChannelRow) (t : Table)
    → text_eq slug other ≡ false
    → lookup other (insert slug row t) ≡ lookup other t
lookup-insert_other slug other row t e = rw (lookup-insert slug other row t, e) refl

create_checked-IsCreated :
    (env : Env) (id : ℕ) (user : UserSnapshot) (slug title description : Text) (w : World)
    → (create_checked env id user.id slug title description w).1.status ≡ 201
    → IsCreated user w (create_checked env id user.id slug title description w).0
unfolding create_checked insert_channel mamechat.Http.Settings.is_post_ttl
    mamechat.Access.normalize_mode
create_checked-IsCreated env id user slug title description w = elim (Bool-cases (is_slug slug)) [
  | inr e ↦ rw e (λ h. absurd (omega arith))
  | inl e ↦ elim (Bool-cases (is_empty (validate_channel_text title description))) [
    | inr f ↦ rw (e, f) (λ h. absurd (omega arith))
    | inl f ↦ elim (Bool-cases (env.fails creating_channel || is_some (lookup slug w.table))) [
      | inl g ↦ rw (e, f, g) (λ h. absurd (omega arith))
      | inr g ↦
          rw (e, f, g)
            (λ h. record {
              slug = slug;
              row = _;
              fresh = ground arith;
              found = lookup-insert_self slug _ w.table;
              others = λ other. lookup-insert_other slug other _ w.table;
              named = is_slug_lem slug e;
              owned = refl;
              closed = refl;
              sound = (
                length-or_slug slug title (is_slug_lem slug e).1
                    (validate_channel_text_lem title description f).0,
                omega (
                  arith,
                  length-trimmed_text description,
                  (validate_channel_text_lem title description f).1,
                ),
                refl,
                refl,
              );
            })
    ]
  ]
]

-- A request for a channel that is answered with success has made one: its slug is new and has 8 to
-- 50 lower case letters, digits and hyphens, it belongs to the user, it is closed, and its settings
-- are within their bounds; every other channel is as it was.
pub create_channel-IsCreated :
    (env : Env) (table : ℕ → ℕ) (id : ℕ) (user : UserSnapshot) (body : Option CreateRequest)
    (w : World)
    → (create_channel env table id (some user) body w).1.status ≡ 201
    → IsCreated user w (create_channel env table id (some user) body w).0
unfolding create_channel create_for
create_channel-IsCreated env table id user none w h = absurd (omega arith)
create_channel-IsCreated env table id user (some req) w h =
    create_checked-IsCreated env id user _ _ _ w h
