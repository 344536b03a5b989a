-- ===== src/Chat/Channel/Deadline.antt =====
-- chat/hub.go: the closing deadline against a list of candidates.
use mamechat.Prelude.{
  ◌+◌, ◌≤◌, ◌<◌, ◌≡◌, ◌≢◌, min, max, Bool, true, false, not, ◌&&◌, List, [], ◌∷◌, ◌++◌,
  if◌then◌else◌, arith,
}
use mamechat.Chat.Time.{Time, zero_time, is_zero}
use mamechat.Chat.Channel.{LocalChannel, or_now, compute_suspend_deadline, reassessed_deadline}

-- The earliest of some instants, or the zero time if there is none.
abbrev pub earliest : List Time → Time
earliest [] = zero_time
earliest (t ∷ []) = t
earliest (t ∷ u ∷ []) = min t u
earliest (t ∷ u ∷ more) = min t u

abbrev pub present_if : Bool → Time → List Time
present_if true t = t ∷ []
present_if false t = []

-- The instants at which an open channel may close: the end of its opening hours if there is one,
-- and the end of the grace period while the owner is away.
abbrev pub candidates : LocalChannel → Bool → Time → List Time
candidates ch owner_present now =
    present_if (not (is_zero ch.operating_deadline)) ch.operating_deadline
    ++ present_if (not owner_present && ch.suspend_enabled)
        (or_now ch.owner_absent_since now + ch.grace)

-- A channel that is open and has a time limit closes at the earliest candidate, and any other
-- channel has no deadline.
pub compute_suspend_deadline-earliest :
    (ch : LocalChannel) (owner_present : Bool) (now : Time)
    → compute_suspend_deadline ch owner_present now ≡ (
        if ch.suspended
        then zero_time
        else if ch.operating_unlimited
        then zero_time
        else earliest (candidates ch owner_present now))
unfolding compute_suspend_deadline
compute_suspend_deadline-earliest ch p now = ground arith

-- An evaluation never prolongs the opening hours: an open channel with a closing time, nothing
-- frozen and no absence that begins later than now has a deadline, no later than that time, or than
-- now if the time is past, whether the owner is there or not.
pub reassessed_deadline_bounds :
    (ch : LocalChannel) (owner_present : Bool) (now : Time)
    → 0 < now
    → ch.suspended ≡ false
    → ch.operating_unlimited ≡ false
    → ch.operating_deadline ≢ zero_time
    → ch.operating_paused_remaining ≡ 0
    → ch.owner_absent_since ≤ now
    → (0 < reassessed_deadline ch owner_present now)
      × (reassessed_deadline ch owner_present now ≤ max ch.operating_deadline now)
unfolding reassessed_deadline
reassessed_deadline_bounds ch p now = ground arith
