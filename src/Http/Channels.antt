-- ===== src/Http/Channels.antt =====
-- httpserver/routes.go: creating and removing channels (`createChannel`, `deleteChannel`,
-- `clearChannelMessages`), and what administrators can do to any channel.
pub mod Slugs
pub mod Creation
use mamechat.Prelude.{
  ℕ, Bool, true, false, not, ◌&&◌, ◌||◌, Option, none, some, List, [], ◌∷◌, Text, ℤ, pos, leb, ◌==◌,
  length, lookup, is_some, insert, map, codes, if◌then◌else◌,
}
use mamechat.Strings.{is_empty, trim_space, to_lower}
use mamechat.Chat.Time.{Time}
use mamechat.Chat.User.{UserSnapshot}
use mamechat.Chat.Admission.{is_privileged}
use mamechat.Chat.Notices.{channel_kicked, channel_cleared}
use mamechat.Chat.Hub.{
  World, Env, noted, publish, reading_channel, creating_channel, deleting_channel,
  clearing_messages, setting_retention, setting_grace, images_deleted, messages_cleared,
}
use mamechat.Chat.Connections.{drop_channel}
use mamechat.Chat.Requests.{Answer, done, not_operating, failed, set_operating_unlimited}
use mamechat.Store.{ChannelRow, Table}
use mamechat.Store.Settings.{
  delete_channel_by_slug, set_channel_suspend_retention, set_channel_suspend_grace,
}
use mamechat.Http.{
  Response, success, error, bad_request, unauthorized, forbidden, not_found, internal_error,
}
use mamechat.Http.Manager.{is_manager}
use mamechat.Http.Settings.{validate_channel_text, trimmed_text}

-- `strings.ReplaceAll(v, "_", "-")`
abbrev pub dashed : ℕ → ℕ
dashed c = if c == b'_' then b'-' else c

-- `normalizeSlug`
unfoldable pub normalize_slug : (ℕ → ℕ) → Text → Text
normalize_slug table v = map dashed (to_lower table (trim_space v))

-- `[a-z0-9]`
abbrev pub is_slug_end : ℕ → Bool
is_slug_end c = (leb b'a' c && leb c b'z') || (leb b'0' c && leb c b'9')

-- `[a-z0-9-]`
abbrev pub is_slug_rune : ℕ → Bool
is_slug_rune c = is_slug_end c || c == b'-'

-- The runes up to the last, which is a letter or digit.
unfoldable pub is_slug_tail : Text → Bool
is_slug_tail [] = false
is_slug_tail (c ∷ []) = is_slug_end c
is_slug_tail (c ∷ d ∷ s) = is_slug_rune c && is_slug_tail (d ∷ s)

-- `slugPattern`: ^[a-z0-9][a-z0-9-]{6,48}[a-z0-9]$
unfoldable pub is_slug : Text → Bool
unfolding is_slug_tail
is_slug [] = false
is_slug (c ∷ s) = is_slug_end c && is_slug_tail s && leb 7 (length s) && leb (length s) 49

-- The body of a request for a channel.
pub record CreateRequest : Type 0 where
  pub slug : Text
  pub title : Text
  pub description : Text

-- The row that `CreateChannel` inserts: a closed channel, with the defaults of the columns.
abbrev pub created_row : Time → ℕ → Text → Option Text → ℕ → ChannelRow
created_row now id title description owner = record {
  id = id;
  title = title;
  description = description;
  owner_user_id = some owner;
  suspend_retention_hours = none;
  post_ttl_hours = pos 24;
  suspended_at = some now;
  suspend_grace_seconds = none;
  operating_deadline = none;
  operating_unlimited = false;
  operating_paused_remaining_seconds = none;
  no_consecutive_posts = false;
  require_comment_for_attachment = false;
  url_linkify_enabled = true;
  image_upload_enabled = true;
  access_mode = codes "none";
  access_list = codes "[]";
}

-- `CreateChannel`: a slug that is taken fails, since it is unique.
insert_channel : Env → Text → ChannelRow → World → World × Response
insert_channel env slug row w =
    if env.fails creating_channel || is_some (lookup slug w.table)
    then (w, internal_error (codes "failed to create channel"))
    else (record w { table = insert slug row w.table }, error 201 [])

create_checked : Env → ℕ → ℕ → Text → Text → Text → World → World × Response
create_checked env id owner slug title description w =
    let problem = validate_channel_text title description in
    let name = if is_empty title then slug else title in
    if not (is_slug slug)
    then (w, bad_request (codes "slug must be 8-50 lowercase letters, numbers, or hyphens"))
    else if not (is_empty problem)
    then (w, bad_request problem)
    else insert_channel env slug (created_row env.db_now id name (trimmed_text description) owner) w

create_for : Env → (ℕ → ℕ) → ℕ → Option CreateRequest → UserSnapshot → World → World × Response
create_for env table id none user w = (w, bad_request (codes "invalid json"))
create_for env table id (some req) user w =
    create_checked env id user.id (normalize_slug table req.slug) (trim_space req.title)
      (trim_space req.description) w

-- `createChannel`; `id` is the next value of the sequence.
unfoldable pub create_channel :
    Env → (ℕ → ℕ) → ℕ → Option UserSnapshot → Option CreateRequest → World → World × Response
unfolding insert_channel create_checked create_for
create_channel env table id none body w = (w, unauthorized)
create_channel env table id (some user) body w = create_for env table id body user w

-- `requireAdmin`
unfoldable pub require_admin : Option UserSnapshot → Option Response
unfolding is_privileged
require_admin none = some unauthorized
require_admin (some user) =
    if is_privileged user.role then none else some (forbidden (codes "admin only"))

-- `adminCreateChannel`
unfoldable pub admin_created :
    Env
    → (ℕ → ℕ)
    → ℕ
    → Option Response
    → Option UserSnapshot
    → Option CreateRequest
    → World
    → World × Response
admin_created env table id none session body w = create_channel env table id session body w
admin_created env table id (some refusal) session body w = (w, refusal)

unfoldable pub admin_create_channel :
    Env → (ℕ → ℕ) → ℕ → Option UserSnapshot → Option CreateRequest → World → World × Response
unfolding admin_created
admin_create_channel env table id session body w =
    admin_created env table id (require_admin session) session body w

-- The row is gone: the node forgets the channel and tells the others.
removed : Env → Text → World → World
removed env slug w =
    (publish env slug (channel_kicked env.time_format env.now slug) (drop_channel env slug w)).0

delete_row : Env → Text → World → World × Response
delete_row env slug w =
    if env.fails deleting_channel
    then (w, internal_error (codes "failed to delete channel"))
    else (removed env slug (record w { table = delete_channel_by_slug slug w.table }), success)

clear_row : Env → Text → ChannelRow → World → World × Response
clear_row env slug row w =
    if env.fails clearing_messages
    then (w, internal_error (codes "failed to clear messages"))
    else (
      (publish env slug (channel_cleared env.time_format env.now slug)
          (noted (messages_cleared row.id) w)).0,
      success,
    )

-- What the manager of a channel can do with all of it.
pub data Sweep : Type 0 where
  delete_all clear_all : Sweep

abbrev failure_of : Sweep → Text
failure_of delete_all = codes "failed to delete channel"
failure_of clear_all = codes "failed to clear messages"

-- The files of the images go first.
pub sweep_row : Env → Text → ChannelRow → Sweep → World → World × Response
sweep_row env slug row delete_all w = delete_row env slug (noted (images_deleted row.id) w)
sweep_row env slug row clear_all w = clear_row env slug row (noted (images_deleted row.id) w)

unfoldable pub sweep_found :
    Env → UserSnapshot → Text → Sweep → Option ChannelRow → World → World × Response
sweep_found env user slug what none w = (w, not_found (codes "channel not found"))
sweep_found env user slug what (some row) w =
    if is_manager user row
    then sweep_row env slug row what w
    else (w, forbidden (codes "channel owner only"))

-- `deleteChannel` and `clearChannelMessages`
unfoldable pub sweep : Env → Option UserSnapshot → Text → Sweep → World → World × Response
unfolding removed delete_row clear_row sweep_row sweep_found
sweep env none slug what w = (w, unauthorized)
sweep env (some user) slug what w =
    if env.fails reading_channel
    then (w, internal_error (failure_of what))
    else sweep_found env user slug what (lookup slug w.table) w

-- What administrators ask of a channel; a body that is not JSON of the right form is none.
pub data AdminRequest : Type 0 where
  set_any_retention set_any_grace : Option (Option ℤ) → AdminRequest
  set_mode : Option Bool → AdminRequest
  delete_any : AdminRequest

update_failed : World → World × Response
update_failed w = (w, internal_error (codes "failed to update channel"))

mode_answer : World × Answer → World × Response
mode_answer (w, done) = (w, success)
mode_answer (w, not_operating) = update_failed w
mode_answer (w, failed) = update_failed w

-- The request on a channel that was found.
admin_act : Env → Text → AdminRequest → World → World × Response
admin_act env slug (set_any_retention none) w = (w, bad_request (codes "invalid json"))
admin_act env slug (set_any_retention (some hours)) w =
    if env.fails setting_retention
    then update_failed w
    else (record w { table = set_channel_suspend_retention hours slug w.table }, success)
admin_act env slug (set_any_grace none) w = (w, bad_request (codes "invalid json"))
admin_act env slug (set_any_grace (some seconds)) w =
    if env.fails setting_grace
    then update_failed w
    else (record w { table = set_channel_suspend_grace seconds slug w.table }, success)
admin_act env slug (set_mode none) w = (w, bad_request (codes "invalid json"))
admin_act env slug (set_mode (some unlimited)) w =
    mode_answer (set_operating_unlimited env slug unlimited w)
admin_act env slug delete_any w = delete_row env slug w

-- The request is malformed, which is seen before the channel is looked up.
pub malformed : Text → AdminRequest → Option Response
malformed slug (set_any_retention none) = some (bad_request (codes "invalid json"))
malformed slug (set_any_grace none) = some (bad_request (codes "invalid json"))
malformed slug (set_mode none) = some (bad_request (codes "invalid json"))
malformed slug delete_any =
    if is_empty slug then some (bad_request (codes "channel slug is required")) else none
malformed slug _ = none

unread : AdminRequest → Text
unread delete_any = codes "failed to delete channel"
unread _ = codes "failed to update channel"

admin_found : Env → Text → AdminRequest → Option ChannelRow → World → World × Response
admin_found env slug request none w = (w, not_found (codes "channel not found"))
admin_found env slug request (some row) w = admin_act env slug request w

pub admin_read : Env → Text → AdminRequest → Option Response → World → World × Response
admin_read env slug request (some problem) w = (w, problem)
admin_read env slug request none w =
    if env.fails reading_channel
    then (w, internal_error (unread request))
    else admin_found env slug request (lookup slug w.table) w

unfoldable pub admin_gate : Env → Text → AdminRequest → Option Response → World → World × Response
admin_gate env slug request (some refusal) w = (w, refusal)
admin_gate env slug request none w = admin_read env slug request (malformed slug request) w

-- `adminSetChannelSuspendRetention`, `adminSetChannelSuspendGrace`,
-- `adminSetChannelOperatingUnlimited` and `adminDeleteChannel`
unfoldable pub administer :
    Env → Option UserSnapshot → Text → AdminRequest → World → World × Response
unfolding delete_row removed update_failed mode_answer admin_act malformed unread admin_found
    admin_read admin_gate
administer env session slug request w = admin_gate env slug request (require_admin session) w
