-- ===== src/Tests/Channel.antt =====
-- The theorems on a channel in memory, at an open channel whose owner goes away.
use mamechat.Prelude.{◌*◌, ◌≤◌, ◌<◌, ◌≡◌, refl, max, true, false, arith, inl}
use mamechat.Chat.Time.{Time, second, zero_time}
use mamechat.Chat.Channel.{
  LocalChannel, compute_suspend_deadline, reassess, reassessed_deadline, apply_unlimited,
}
use mamechat.Chat.Channel.Deadline.{
  candidates, earliest, compute_suspend_deadline-earliest, reassessed_deadline_bounds,
}
use mamechat.Chat.Channel.Consistency.{
  IsConsistent, evaluate, set_mode, here, next, Reach-IsConsistent,
}
use mamechat.Tests.{noon, evening, room}

abbrev late : Time
late = 180 * second

compute_suspend_deadline-earliest_example :
    compute_suspend_deadline room false noon ≡ earliest (candidates room false noon)
compute_suspend_deadline-earliest_example = compute_suspend_deadline-earliest room false noon

reassessed_deadline_bounds_example :
    (0 < reassessed_deadline room false noon)
    × (reassessed_deadline room false noon ≤ max evening noon)
reassessed_deadline_bounds_example =
    reassessed_deadline_bounds room false noon (omega arith) refl refl (λ e. omega arith) refl
      (omega arith)

abbrev frozen : LocalChannel
frozen = record room { operating_deadline = zero_time; operating_paused_remaining = 7200 * second }

room-IsConsistent : IsConsistent room
room-IsConsistent = record { frozen_stops = inl refl; closed_stops = inl refl }

abbrev left_alone : LocalChannel
left_alone = (reassess room false noon).channel

Reach-IsConsistent_example : IsConsistent (apply_unlimited left_alone true)
Reach-IsConsistent_example =
    Reach-IsConsistent room-IsConsistent
      (next (next here (evaluate room false noon)) (set_mode left_alone true))
