-- ===== src/Chat/Bus/Absence.antt =====
-- chat/hub.go: the owner of a channel goes away and comes back, and the node hears its own messages.
use mamechat.Prelude.{ℕ, ◌*◌, ◌/◌, ◌≡◌, false, ltb, if◌then◌else◌}
use mamechat.Chat.Time.{Time, zero_time, second}
use mamechat.Chat.Channel.{LocalChannel}

-- A channel that is open, has a time limit and is frozen with so much left.
record IsFrozen (ch : LocalChannel) (rest : ℕ) : Type 0 where
  shown : ch.suspended ≡ false
  limited : ch.operating_unlimited ≡ false
  no_deadline : ch.operating_deadline ≡ zero_time
  held : ch.operating_paused_remaining ≡ rest

-- What is left of so many nanoseconds in whole seconds, if there is a whole one.
abbrev pub in_seconds : ℕ → ℕ
in_seconds rest = if ltb 0 (rest / second * second) then rest / second * second else rest
