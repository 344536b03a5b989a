-- ===== src/Chat/Channel/Absence.antt =====
-- chat/hub.go: the owner goes away and comes back.
use mamechat.Prelude.{◌+◌, ◌-◌, ◌≤◌, ◌<◌, ◌≡◌, true, false, arith}
use mamechat.Chat.Time.{Time, zero_time}
use mamechat.Chat.Channel.{
  LocalChannel, compute_suspend_deadline, reassess, reassessed_deadline, apply_unlimited,
}

-- While the owner stays away, a later evaluation changes neither the channel nor the deadline.
pub reassess_stable :
    (ch : LocalChannel) (now later : Time)
    → 0 < now
    → now ≤ later
    → let away = (reassess ch false now).channel in
      (reassess away false later).channel ≡ away
      × (reassessed_deadline away false later ≡ reassessed_deadline ch false now)
unfolding reassessed_deadline
reassess_stable ch now later h k = ground arith

-- Where the grace period is longer than what is left of the opening hours of a channel that has
-- nothing frozen, the owner's absence and return leave the closing time as it was.
pub reassess_keeps_short :
    (ch : LocalChannel) (left back : Time)
    → ch.operating_paused_remaining ≡ 0
    → ch.operating_deadline - left < ch.grace
    → let away = (reassess ch false left).channel in
      (away.operating_deadline ≡ ch.operating_deadline)
      × ((reassess away true back).channel.operating_deadline ≡ ch.operating_deadline)
unfolding reassess
reassess_keeps_short ch left back a b = ground arith

-- If "no time limit" is switched on while a channel that is not closed is frozen, the frozen hours stay; when the
-- owner is next seen, the channel without a time limit takes a closing time, and switching the
-- limit on again makes it close then.
pub apply_unlimited_keeps_frozen :
    (ch : LocalChannel) (now later : Time)
    → ch.suspended ≡ false
    → 0 < ch.operating_paused_remaining
    → let seen = (reassess (apply_unlimited ch true) true now).channel in
      (seen.operating_unlimited ≡ true)
      × (seen.operating_deadline ≡ now + ch.operating_paused_remaining)
      × (compute_suspend_deadline seen true later ≡ zero_time)
      × (compute_suspend_deadline (apply_unlimited seen false) true later
          ≡ now + ch.operating_paused_remaining)
unfolding reassess apply_unlimited compute_suspend_deadline
apply_unlimited_keeps_frozen ch now later a b = ground arith
