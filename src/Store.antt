-- ===== src/Store.antt =====
-- backend/internal/generated/db: the table `channels` under the statements of channels.sql.go that
-- open, close, pause and resume a channel. A row has the columns that the modelled code reads.
-- `now` is the clock of the database. A statement that changes no row is told by its count.
pub mod Rows
pub mod Settings
use mamechat.Prelude.{
  ℕ, ◌+◌, ◌-◌, ◌*◌, ◌/◌, ◌^◌, Bool, true, false, not, ◌&&◌, Option, none, some, List, Text, ℤ, pos,
  negsuc, suc, ltb, is_some, lookup, insert, if◌then◌else◌,
}
use mamechat.Chat.Time.{Time, second}

pub record ChannelRow : Type 0 where
  pub id : ℕ
  pub title : Text
  pub description : Option Text
  pub owner_user_id : Option ℕ
  pub suspend_retention_hours : Option ℤ
  pub post_ttl_hours : ℤ
  pub suspended_at : Option Time
  pub suspend_grace_seconds : Option ℤ
  pub operating_deadline : Option Time
  pub operating_unlimited : Bool
  pub operating_paused_remaining_seconds : Option ℤ
  pub no_consecutive_posts : Bool
  pub require_comment_for_attachment : Bool
  pub url_linkify_enabled : Bool
  pub image_upload_enabled : Bool
  pub access_mode : Text
  pub access_list : Text

-- The rows by their slugs, which are unique.
abbrev pub Table : Type 0
Table = List (Text × ChannelRow)

update_row :
    (ChannelRow → Bool) → (ChannelRow → ChannelRow) → Text → Table → Option ChannelRow → Table × ℕ
update_row guard set slug t none = (t, 0)
update_row guard set slug t (some row) = if guard row then (insert slug (set row) t, 1) else (t, 0)

-- `UPDATE channels SET ... WHERE slug = $1 AND ...`, with the number of rows changed.
unfoldable pub update_where :
    (ChannelRow → Bool) → (ChannelRow → ChannelRow) → Text → Table → Table × ℕ
unfolding update_row
update_where guard set slug t = update_row guard set slug t (lookup slug t)

abbrev pub is_open : ChannelRow → Bool
is_open row = not (is_some row.suspended_at)

abbrev pub suspended_row : Time → ChannelRow → ChannelRow
suspended_row now row = record row {
  suspended_at = some now;
  operating_deadline = none;
  operating_paused_remaining_seconds = none;
}

unfoldable pub suspend_channel_if_active : Time → Text → Table → Table × ℕ
suspend_channel_if_active now = update_where is_open (suspended_row now)

abbrev pub started_row : Option Time → ChannelRow → ChannelRow
started_row deadline row = record row {
  suspended_at = none;
  operating_deadline = deadline;
  operating_paused_remaining_seconds = none;
}

unfoldable pub start_channel_operating : Option Time → Text → Table → Table × ℕ
start_channel_operating deadline = update_where (λ row. true) (started_row deadline)

abbrev pub deadline_row : Option Time → ChannelRow → ChannelRow
deadline_row deadline row = record row {
  operating_deadline = deadline;
  operating_paused_remaining_seconds = none;
}

unfoldable pub set_channel_operating_deadline : Option Time → Text → Table → Table × ℕ
set_channel_operating_deadline deadline = update_where is_open (deadline_row deadline)

-- `GREATEST(0, CEIL(EXTRACT(EPOCH FROM (operating_deadline - now()))))`
abbrev pub seconds_left : Time → Time → ℕ
seconds_left deadline now = (deadline - now + 999999999) / second

abbrev pub pausable_row : ChannelRow → Bool
pausable_row row =
    is_open row
    && is_some row.operating_deadline
    && not row.operating_unlimited
    && not (is_some row.operating_paused_remaining_seconds)

paused_row : Time → ChannelRow → Option Time → ChannelRow
paused_row now row none = row
paused_row now row (some deadline) = record row {
  operating_paused_remaining_seconds = some (pos (seconds_left deadline now));
  operating_deadline = none;
}

unfoldable pub pause_channel_operating : Time → Text → Table → Table × ℕ
unfolding paused_row
pause_channel_operating now =
    update_where pausable_row (λ row. paused_row now row row.operating_deadline)

-- `now() + n * interval '1 second'`
abbrev pub after_seconds : Time → ℤ → Time
after_seconds now (pos s) = now + s * second
after_seconds now (negsuc n) = now - suc n * second

abbrev pub resumable_row : ChannelRow → Bool
resumable_row row = is_open row && is_some row.operating_paused_remaining_seconds

resumed_row : Time → ChannelRow → Option ℤ → ChannelRow
resumed_row now row none = row
resumed_row now row (some seconds) = record row {
  operating_deadline = some (after_seconds now seconds);
  operating_paused_remaining_seconds = none;
}

-- The column that `RETURNING` hands back, if a row was changed.
returned : Text → Table × ℕ → Option (Option Time)
returned slug (t, n) =
    if ltb 0 n
    then (elim (lookup slug t) [ none ↦ none | some row ↦ some row.operating_deadline ])
    else none

unfoldable pub resume_channel_operating : Time → Text → Table → Table × Option (Option Time)
unfolding resumed_row returned
resume_channel_operating now slug t =
    let changed =
      update_where resumable_row (λ row. resumed_row now row row.operating_paused_remaining_seconds)
        slug t in
    (changed.0, returned slug changed)

abbrev pub unlimited_row : Bool → ChannelRow → ChannelRow
unlimited_row unlimited row = record row {
  operating_unlimited = unlimited;
  operating_deadline = if unlimited then none else row.operating_deadline;
  operating_paused_remaining_seconds =
      if unlimited then none else row.operating_paused_remaining_seconds;
}

unfoldable pub set_channel_operating_unlimited : Bool → Text → Table → Table × ℕ
set_channel_operating_unlimited unlimited = update_where (λ row. true) (unlimited_row unlimited)
