-- ===== src/Tests.antt =====
-- Concrete data of the chat: a channel, its users and the services around a node.
pub mod Channel
pub mod Hub
pub mod Requests
pub mod Access
pub mod Posts
pub mod Reactions
pub mod Reader
pub mod Lobby
pub mod Tts
pub mod Http
pub mod Accounts
use mamechat.Prelude.{
  ℕ, ◌*◌, Bool, true, false, refl, Option, none, some, List, [], ◌∷◌, Text, ℤ, pos, codes, lookup,
}
use mamechat.Chat.Time.{Time, TimeFormat, second, zero_time}
use mamechat.Chat.User.{UserSnapshot, Client}
use mamechat.Chat.Channel.{LocalChannel}
use mamechat.Chat.Presence.{Answers}
use mamechat.Chat.Hub.{World, Env, Outbox, Service}
use mamechat.Store.{ChannelRow, Table}

-- An instant as the text of one code point.
abbrev parse_first : Text → Option Time
parse_first [] = none
parse_first (t ∷ s) = some t

abbrev pub plain_format : TimeFormat
plain_format = record {
  format = λ t. t ∷ [];
  parse = parse_first;
  parse-format = λ t. refl;
  format_nonempty = λ t. refl;
}

abbrev pub slug : Text
slug = codes "mame"

-- The present, and the end of the opening hours.
abbrev pub noon : Time
noon = 100 * second

abbrev pub evening : Time
evening = 200 * second

abbrev pub user : ℕ → UserSnapshot
user id = record {
  id = id;
  display_name = codes "Mame";
  handle = codes "@Mame@example.com";
  avatar_url = [];
  provider = codes "mastodon";
  subject = codes "42";
  role = codes "user";
  status = codes "active";
  profile_url = [];
  tts_voicevox_speaker = none;
  ghost_mode = false;
}

abbrev pub client : ℕ → ℕ → Client
client key id = record {
  key = key;
  user = user id;
  session_id = key;
  channel_id = 5;
  channel_slug = slug;
  channel_owner_id = 1;
  suspend_grace_seconds = some (pos 30);
  channel_suspended = false;
  operating_deadline = some evening;
  operating_unlimited = false;
  operating_paused = none;
}

-- A channel of user 1 in which user 2 is, open until the evening.
abbrev pub room : LocalChannel
room = record {
  slug = slug;
  channel_id = 5;
  owner_user_id = 1;
  grace = 30 * second;
  suspend_enabled = true;
  clients = client 7 2 ∷ [];
  suspended = false;
  operating_deadline = evening;
  operating_unlimited = false;
  owner_absent_since = zero_time;
  operating_paused_remaining = 0;
}

abbrev pub row : ChannelRow
row = record {
  id = 5;
  owner_user_id = some 1;
  title = codes "room";
  description = none;
  suspend_retention_hours = none;
  post_ttl_hours = pos 24;
  suspended_at = none;
  suspend_grace_seconds = some (pos 30);
  operating_deadline = some evening;
  operating_unlimited = false;
  operating_paused_remaining_seconds = none;
  no_consecutive_posts = true;
  require_comment_for_attachment = false;
  url_linkify_enabled = true;
  image_upload_enabled = true;
  access_mode = codes "blacklist";
  access_list = codes "[]";
}

abbrev pub table : Table
table = (slug, row) ∷ []

abbrev pub frozen_row : ChannelRow
frozen_row = record row {
  operating_deadline = none;
  operating_paused_remaining_seconds = some (pos 7200);
}

-- No service fails.
abbrev pub node : Env
node = record {
  now = noon;
  db_now = noon;
  time_format = plain_format;
  stamp = λ t. t;
  fails = λ s. false;
  active = λ s. [];
  answers = λ s id. record { active = none; visitors = none; total = none; visitor = λ u. none };
  grace = 30 * second;
  grace_enabled = true;
}

abbrev pub world : World
world = record {
  channels = (slug, room) ∷ [];
  timers = (slug, evening) ∷ [];
  table = table;
  outbox = λ key. record { waiting = []; closed = false };
  crashed = false;
  log = [];
}
