-- ===== src/Store/Rows.antt =====
-- channels.sql.go: what a statement does to the row of its slug and to the others.
use mamechat.Prelude.{
  ℕ, ◌+◌, ◌-◌, ◌*◌, ◌≤◌, ◌<◌, ◌≡◌, refl, Bool, true, false, Option, none, some, Text, text_eq,
  text_eq_iff, text_eq_refl, pos, is_some, lookup, lookup-insert, if◌then◌else◌, arith,
}
use mamechat.Chat.Time.{Time, second}
use mamechat.Store.{
  ChannelRow, Table, update_where, update_row, pause_channel_operating, resume_channel_operating,
  paused_row, resumed_row, pausable_row, resumable_row, seconds_left, returned,
}

abbrev pub set_if :
    (ChannelRow → Bool) → (ChannelRow → ChannelRow) → Option ChannelRow → Option ChannelRow
set_if guard set none = none
set_if guard set (some row) = if guard row then some (set row) else some row

lookup-update_row :
    (guard : ChannelRow → Bool) (set : ChannelRow → ChannelRow) (slug other : Text) (t : Table)
    (o : Option ChannelRow)
    → lookup slug t ≡ o
    → lookup other (update_row guard set slug t o).0
      ≡ (if text_eq slug other then set_if guard set (lookup other t) else lookup other t)
unfolding update_row
lookup-update_row guard set slug other t none e = ground (arith, text_eq_iff slug other)
lookup-update_row guard set slug other t (some row) e =
    ground (arith, text_eq_iff slug other, lookup-insert slug other (set row) t)

-- A statement changes the row of its slug if its condition holds, and no other row.
pub lookup-update_where :
    (guard : ChannelRow → Bool) (set : ChannelRow → ChannelRow) (slug other : Text) (t : Table)
    → lookup other (update_where guard set slug t).0
      ≡ (if text_eq slug other then set_if guard set (lookup other t) else lookup other t)
unfolding update_where
lookup-update_where guard set slug other t =
    lookup-update_row guard set slug other t (lookup slug t) refl

pub lookup-update_where_self :
    (guard : ChannelRow → Bool) (set : ChannelRow → ChannelRow) (slug : Text) (t : Table)
    → lookup slug (update_where guard set slug t).0 ≡ set_if guard set (lookup slug t)
lookup-update_where_self guard set slug t =
    rw (lookup-update_where guard set slug slug t) (rw (text_eq_refl slug))

count-update_row :
    (guard : ChannelRow → Bool) (set : ChannelRow → ChannelRow) (slug : Text) (t : Table)
    {row : ChannelRow}
    → lookup slug t ≡ some row
    → guard row ≡ true
    → (update_where guard set slug t).1 ≡ 1
unfolding update_where update_row
count-update_row guard set slug t e g = rw (e, update_row) (rw g refl)

-- The row that the pause of an open channel with a closing time leaves.
lookup-pause :
    (now deadline : Time) (slug : Text) (t : Table) {row : ChannelRow}
    → lookup slug t ≡ some row
    → pausable_row row ≡ true
    → row.operating_deadline ≡ some deadline
    → lookup slug (pause_channel_operating now slug t).0
      ≡ some (record row {
        operating_paused_remaining_seconds = some (pos (seconds_left deadline now));
        operating_deadline = none;
      })
unfolding pause_channel_operating
lookup-pause now deadline slug t {row} e g d =
    rw (lookup-update_where_self pausable_row (λ r. paused_row now r r.operating_deadline) slug t)
      (rw (e, set_if) (rw g (rw (d, paused_row) refl)))

pausable→open : (row : ChannelRow) → pausable_row row ≡ true → is_some row.suspended_at ≡ false
pausable→open row h = ground arith

-- The row after a resumption of frozen hours, and what the statement returns.
pub lookup-resume :
    (now : Time) (s : ℕ) (slug : Text) (t : Table) {row : ChannelRow}
    → lookup slug t ≡ some row
    → is_some row.suspended_at ≡ false
    → row.operating_paused_remaining_seconds ≡ some (pos s)
    → let resumed = record row {
      operating_deadline = some (now + s * second);
      operating_paused_remaining_seconds = none;
    } in
      (lookup slug (resume_channel_operating now slug t).0 ≡ some resumed)
      × ((resume_channel_operating now slug t).1 ≡ some (some (now + s * second)))
unfolding resume_channel_operating
lookup-resume now s slug t {row} e o p = (found, answer)
  where
    guarded : resumable_row row ≡ true
    guarded = ground arith

    found :
        lookup slug
          (update_where resumable_row
            (λ r. resumed_row now r r.operating_paused_remaining_seconds)
            slug
            t).0
        ≡ some (record row {
          operating_deadline = some (now + s * second);
          operating_paused_remaining_seconds = none;
        })
    found =
        rw
          (lookup-update_where_self resumable_row
            (λ r. resumed_row now r r.operating_paused_remaining_seconds) slug t)
          (rw (e, set_if) (rw guarded (rw (p, resumed_row) refl)))

    answer :
        returned slug (
          update_where resumable_row
            (λ r. resumed_row now r r.operating_paused_remaining_seconds)
            slug
            t)
        ≡ some (some (now + s * second))
    answer =
        rw
          (count-update_row resumable_row
            (λ r. resumed_row now r r.operating_paused_remaining_seconds) slug t e guarded)
          (rw found refl)

-- Pausing an open channel with a time limit, a closing time and nothing frozen, and then resuming
-- it, gives a closing time that leaves as much of the opening hours as there was and less than a
-- second more; the second statement returns it, and the rest of the row is as before.
pub resume-pause :
    (now later deadline : Time) (slug : Text) (t : Table) {row : ChannelRow}
    → lookup slug t ≡ some row
    → pausable_row row ≡ true
    → row.operating_deadline ≡ some deadline
    → let resumed = resume_channel_operating later slug (pause_channel_operating now slug t).0 in
      (d : Time) × (resumed.1 ≡ some (some d))
      × (lookup slug resumed.0
          ≡ some (record row {
            operating_deadline = some d;
            operating_paused_remaining_seconds = none;
          }))
      × (later + (deadline - now) ≤ d)
      × (d < later + (deadline - now) + second)
resume-pause now later deadline slug t {row} e g d =
    let (found, answer) =
      lookup-resume later (seconds_left deadline now) slug (pause_channel_operating now slug t).0
        (lookup-pause now deadline slug t e g d) (pausable→open row g) refl in
    (later + seconds_left deadline now * second, answer, found, omega arith, omega arith)
