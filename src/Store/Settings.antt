-- ===== src/Store/Settings.antt =====
-- generated/db/channels.sql.go: the statements that set a channel up, whatever its state. Each
-- changes the row of its slug, if there is one.
use mamechat.Prelude.{
  ℕ, suc, Bool, true, false, Option, none, some, [], ◌∷◌, Text, ℤ, ◌==◌, delete, if◌then◌else◌,
}
use mamechat.Store.{ChannelRow, Table, update_where}

-- `UPDATE channels SET ... WHERE slug = $1`
abbrev pub set_always : (ChannelRow → ChannelRow) → Text → Table → Table
set_always set slug t = (update_where (λ row. true) set slug t).0

unfoldable pub set_channel_suspend_retention : Option ℤ → Text → Table → Table
set_channel_suspend_retention hours =
    set_always (λ row. record row { suspend_retention_hours = hours })

unfoldable pub set_channel_suspend_grace : Option ℤ → Text → Table → Table
set_channel_suspend_grace seconds =
    set_always (λ row. record row { suspend_grace_seconds = seconds })

unfoldable pub set_channel_post_ttl : ℤ → Text → Table → Table
set_channel_post_ttl hours = set_always (λ row. record row { post_ttl_hours = hours })

unfoldable pub set_channel_profile : Text → Option Text → Text → Table → Table
set_channel_profile title description =
    set_always (λ row. record row { title = title; description = description })

-- `SetChannelFeaturesParams` without the slug.
pub record Features : Type 0 where
  pub url_linkify_enabled : Bool
  pub image_upload_enabled : Bool
  pub no_consecutive_posts : Bool
  pub require_comment_for_attachment : Bool

unfoldable pub set_channel_features : Features → Text → Table → Table
set_channel_features f = set_always (λ row. record row {
  url_linkify_enabled = f.url_linkify_enabled;
  image_upload_enabled = f.image_upload_enabled;
  no_consecutive_posts = f.no_consecutive_posts;
  require_comment_for_attachment = f.require_comment_for_attachment;
})

unfoldable pub set_channel_access : Text → Text → Text → Table → Table
set_channel_access mode list =
    set_always (λ row. record row { access_mode = mode; access_list = list })

-- `DeleteChannelBySlug`
unfoldable pub delete_channel_by_slug : Text → Table → Table
delete_channel_by_slug slug t = delete slug t

owned_by : ℕ → Option ℕ → Bool
owned_by user_id none = false
owned_by user_id (some id) = id == user_id

-- `CountChannelsOwnedByUser`
unfoldable pub count_channels_owned_by_user : ℕ → Table → ℕ
unfolding owned_by
count_channels_owned_by_user user_id [] = 0
count_channels_owned_by_user user_id ((slug, row) ∷ t) =
    let rest = count_channels_owned_by_user user_id t in
    if owned_by user_id row.owner_user_id then suc rest else rest
