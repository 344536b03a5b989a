-- ===== src/Chat/Channel.antt =====
-- chat/hub.go: a channel as one node holds it (`localChannel`), and what the hub does to it under
-- its lock: the deadline for closing, the pause while the owner is away, and the changes that
-- messages of the bus bring.
pub mod Deadline
pub mod Consistency
pub mod Absence
use mamechat.Prelude.{
  ℕ, ◌+◌, ◌*◌, ◌≤◌, Bool, true, false, not, ◌&&◌, ◌||◌, Option, none, some, List, Text, ℤ, pos,
  negsuc, ltb, leb, ◌==◌, if◌then◌else◌,
}
use mamechat.Chat.Time.{Time, Duration, zero_time, is_zero, second, time_left}
use mamechat.Chat.User.{Client}

pub record LocalChannel : Type 0 where
  pub slug : Text
  pub channel_id : ℕ
  pub owner_user_id : ℕ
  pub grace : Duration
  pub suspend_enabled : Bool
  pub clients : List Client
  pub suspended : Bool
  pub operating_deadline : Time
  pub operating_unlimited : Bool
  pub owner_absent_since : Time
  pub operating_paused_remaining : Duration

-- `resolveGrace`: the setting of the channel over the default of the hub.
unfoldable pub resolve_grace : Duration → Bool → Option ℤ → Duration × Bool
resolve_grace default enabled none = (default, enabled)
resolve_grace default enabled (some (negsuc n)) = (0, false)
resolve_grace default enabled (some (pos s)) = (s * second, true)

-- `if anchor.IsZero() { anchor = now }`
abbrev pub or_now : Time → Time → Time
or_now anchor now = if is_zero anchor then now else anchor

-- `computeSuspendDeadlineLocked`
unfoldable pub compute_suspend_deadline : LocalChannel → Bool → Time → Time
compute_suspend_deadline ch owner_present now =
    if ch.suspended
    then zero_time
    else if ch.operating_unlimited
    then zero_time
    else if not owner_present && ch.suspend_enabled
    then (let g = or_now ch.owner_absent_since now + ch.grace in
        if is_zero ch.operating_deadline || ltb g ch.operating_deadline
        then g
        else ch.operating_deadline)
    else ch.operating_deadline

-- What `evaluateSuspend` has decided when it gives up the lock.
pub record Decision : Type 0 where
  pub channel : LocalChannel
  pub resume_deadline : Time
  pub pause_auto_close : Time
  pub pause_remaining : Duration

-- The owner is here: a frozen channel resumes with what is left.
unfoldable pub owner_returns : LocalChannel → Time → Decision
owner_returns ch now =
    let back = record ch { owner_absent_since = zero_time } in
    let resume = now + ch.operating_paused_remaining in
    if ltb 0 ch.operating_paused_remaining
    then record {
      channel = record back { operating_deadline = resume; operating_paused_remaining = 0 };
      resume_deadline = resume;
      pause_auto_close = zero_time;
      pause_remaining = 0;
    }
    else record {
      channel = back;
      resume_deadline = zero_time;
      pause_auto_close = zero_time;
      pause_remaining = 0;
    }

-- The owner is away from a channel that may pause: what is left of its opening hours is frozen,
-- unless the grace period would outlast it.
unfoldable pub owner_leaves : LocalChannel → Time → Decision
owner_leaves ch now =
    let away = record ch { owner_absent_since = or_now ch.owner_absent_since now } in
    let left = time_left ch.operating_deadline now in
    if ch.operating_paused_remaining == 0
      && not (is_zero ch.operating_deadline)
      && leb ch.grace left
    then record {
      channel = record away { operating_paused_remaining = left; operating_deadline = zero_time };
      resume_deadline = zero_time;
      pause_auto_close = away.owner_absent_since + ch.grace;
      pause_remaining = left;
    }
    else record {
      channel = away;
      resume_deadline = zero_time;
      pause_auto_close = zero_time;
      pause_remaining = 0;
    }

abbrev pub pausable : LocalChannel → Bool
pausable ch = not ch.suspended && not ch.operating_unlimited && ch.suspend_enabled

-- `evaluateSuspend`, the part under the lock up to the deadline.
unfoldable pub reassess : LocalChannel → Bool → Time → Decision
unfolding owner_returns owner_leaves
reassess ch owner_present now =
    if owner_present
    then owner_returns ch now
    else if pausable ch
    then owner_leaves ch now
    else record {
      channel = ch;
      resume_deadline = zero_time;
      pause_auto_close = zero_time;
      pause_remaining = 0;
    }

-- The deadline that `evaluateSuspend` hands to the timer.
unfoldable pub reassessed_deadline : LocalChannel → Bool → Time → Time
unfolding reassess compute_suspend_deadline
reassessed_deadline ch owner_present now =
    compute_suspend_deadline (reassess ch owner_present now).channel owner_present now

-- `setChannelOperating`, the part under the lock.
unfoldable pub apply_operating : LocalChannel → Bool → Time → LocalChannel
apply_operating ch suspended deadline =
    let set = record ch { suspended = suspended; operating_deadline = deadline } in
    if not (is_zero deadline) || suspended
    then record set { operating_paused_remaining = 0; owner_absent_since = zero_time }
    else set

-- `setChannelPaused`, the part under the lock. The argument is in seconds, as it is sent.
unfoldable pub apply_paused : LocalChannel → ℤ → LocalChannel
apply_paused ch (negsuc n) =
    if not ch.suspended && not ch.operating_unlimited
    then record ch { operating_deadline = zero_time }
    else ch
apply_paused ch (pos s) =
    if not ch.suspended && not ch.operating_unlimited
    then (if ltb 0 (s * second)
        then record ch { operating_deadline = zero_time; operating_paused_remaining = s * second }
        else record ch { operating_deadline = zero_time })
    else ch

-- `setChannelUnlimited`, the part under the lock.
unfoldable pub apply_unlimited : LocalChannel → Bool → LocalChannel
apply_unlimited ch unlimited = record ch {
  operating_unlimited = unlimited;
  operating_deadline = if unlimited then zero_time else ch.operating_deadline;
}
