-- ===== src/Tests/Requests.antt =====
-- The theorems on what is asked of the hub, at an open channel and at a frozen one.
use mamechat.Prelude.{
  ℕ, ◌+◌, ◌-◌, ◌*◌, ◌≤◌, ◌<◌, ◌≡◌, refl, false, none, some, lookup, arith, [], ◌∷◌, inr,
}
use mamechat.Chat.Time.{Time, second}
use mamechat.Chat.Hub.{World, publish}
use mamechat.Chat.Requests.{done, perform, extend_by, request_extend_operating}
use mamechat.Chat.Requests.Agreement.{perform-Agrees}
use mamechat.Chat.Requests.Outcomes.{Agrees, Told}
use mamechat.Chat.Requests.Handling.{AreAgreed}
use mamechat.Chat.Channel.{LocalChannel}
use mamechat.Chat.Bus.{handle_message}
use mamechat.Chat.Message.{ServerMessage}
use mamechat.Chat.Requests.Extension.{request_extend_operating-frozen}
use mamechat.Store.{
  deadline_row, update_where, set_channel_operating_deadline, pause_channel_operating,
  resume_channel_operating,
}
use mamechat.Store.Rows.{resume-pause}
use mamechat.Tests.{slug, noon, evening, room, row, table, frozen_row, node, world}

abbrev hour : ℕ
hour = 3600 * second

-- A channel without a grace period, in a node's memory.
abbrev lasting_room : LocalChannel
lasting_room = record room { suspend_enabled = false }

abbrev lasting_world : World
lasting_world = record world { channels = (slug, lasting_room) ∷ [] }

lasting_room-Agrees : Agrees node row lasting_room
lasting_room-Agrees = record { closed = refl; mode = refl; deadline = refl; frozen = refl }

found : lookup slug world.table ≡ some row
unfolding lookup
found = refl

lasting_extends : (perform node slug (extend_by hour) lasting_world).1 ≡ done
unfolding request_extend_operating publish set_channel_operating_deadline update_where lookup
lasting_extends = refl

held : lookup slug (perform node slug (extend_by hour) lasting_world).0.channels ≡ some lasting_room
unfolding request_extend_operating publish set_channel_operating_deadline update_where lookup
held = refl

perform-Agrees_example :
    let v = (perform node slug (extend_by hour) lasting_world).0 in
    (msg : ServerMessage) × Told slug msg lasting_world v
    × AreAgreed node slug (handle_message node slug msg v)
perform-Agrees_example =
    perform-Agrees node node slug lasting_world row lasting_room refl found lasting_room-Agrees
      (extend_by hour) (perform node slug (extend_by hour) lasting_world).0 (omega arith) (inr refl)
      lasting_extends held refl (inr refl)

abbrev frozen_world : World
frozen_world = record world { table = (slug, frozen_row) ∷ [] }

frozen_found : lookup slug frozen_world.table ≡ some frozen_row
unfolding lookup
frozen_found = refl

extends_frozen : (request_extend_operating node slug hour frozen_world).1 ≡ done
unfolding request_extend_operating publish set_channel_operating_deadline update_where lookup
extends_frozen = refl

request_extend_operating-frozen_example :
    (lookup slug (request_extend_operating node slug hour frozen_world).0.table
      ≡ some (deadline_row (some (noon + hour)) frozen_row))
    × ((resume_channel_operating noon slug frozen_world.table).1
        ≡ some (some (noon + 7200 * second)))
    × (noon + hour < noon + 7200 * second)
request_extend_operating-frozen_example =
    request_extend_operating-frozen node slug hour frozen_world frozen_row frozen_found
      extends_frozen 7200 refl refl (omega arith)

resume-pause_example :
    let resumed =
      resume_channel_operating evening slug (pause_channel_operating noon slug table).0 in
    (d : Time) × (resumed.1 ≡ some (some d))
    × (lookup slug resumed.0
        ≡ some
            (record row { operating_deadline = some d; operating_paused_remaining_seconds = none }))
    × (evening + (evening - noon) ≤ d)
    × (d < evening + (evening - noon) + second)
resume-pause_example = resume-pause noon evening evening slug table found refl refl
