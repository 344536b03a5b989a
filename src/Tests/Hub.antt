-- ===== src/Tests/Hub.antt =====
-- The theorems on the hub of a node, at a channel with one guest.
use mamechat.Prelude.{
  if◌then◌else◌, false, ℕ, ◌≡◌, refl, true, false, none, some, [], ◌∷◌, ◌++◌, codes, lookup,
}
use mamechat.Chat.Channel.{reassess, compute_suspend_deadline}
use mamechat.Chat.Presence.{VisitorRow, Answers, build_presence}
use mamechat.Chat.Presence.Order.{shown, picked, build_presence-members}
use mamechat.Chat.Hub.{World, broadcast, clients_of}
use mamechat.Chat.Message.{error_message}
use mamechat.Chat.Hub.Delivery.{
  has_key, AreOpen, AreDistinct, fed, slow_of, after_drops, broadcast_delivers,
}
use mamechat.Chat.Timer.{owner_present, evaluate_suspend}
use mamechat.Chat.Timer.Evaluation.{timer_for, evaluate_suspend_lem}
use mamechat.Chat.Connections.{register}
use mamechat.Chat.Connections.Members.{Joined, register-Joined}
use mamechat.Tests.{slug, noon, plain_format, client, room, node, world}

found : lookup slug world.channels ≡ some room
unfolding lookup
found = refl

joins : (register node (client 8 1) world).1 ≡ true
unfolding register lookup
joins = refl

evaluate_suspend_lem_example :
    let present = owner_present node slug room in
    let after = (reassess room present noon).channel in
    (lookup slug (evaluate_suspend node slug world).channels ≡ some after)
    × (lookup slug (evaluate_suspend node slug world).timers
        ≡ timer_for (compute_suspend_deadline after present noon))
evaluate_suspend_lem_example = evaluate_suspend_lem node slug room world found refl

-- The guest and the owner.
abbrev crowded : World
crowded = record world {
  channels = (slug, record room { clients = client 7 2 ∷ client 8 1 ∷ [] }) ∷ [];
}

crowded-AreOpen : AreOpen (clients_of (lookup slug crowded.channels)) crowded
unfolding AreOpen lookup
crowded-AreOpen = (refl, (refl, tt))

crowded-AreDistinct : AreDistinct (clients_of (lookup slug crowded.channels))
unfolding AreDistinct has_key lookup
crowded-AreDistinct = (refl, (refl, tt))

broadcast_delivers_example :
    let cs = clients_of (lookup slug crowded.channels) in
    let msg = error_message (codes "hello") in
    let v = broadcast slug msg crowded in
    (v.outbox 8 ≡ (if has_key 8 cs then fed msg (crowded.outbox 8) else crowded.outbox 8))
    × (v.log ≡ after_drops (slow_of crowded.outbox cs) [])
    × (v.crashed ≡ false)
broadcast_delivers_example =
    broadcast_delivers slug (error_message (codes "hello")) crowded 8 crowded-AreOpen
      crowded-AreDistinct

-- The owner connects.
register-Joined_example : Joined node (client 8 1) (register node (client 8 1) world).0
register-Joined_example = register-Joined node (client 8 1) world joins

abbrev visitor : ℕ → VisitorRow
visitor id = record {
  user_id = id;
  display_name = codes "Mame";
  handle = none;
  avatar_url = none;
  provider = none;
  tts_voicevox_speaker_uuid = none;
  tts_voicevox_speaker_name = none;
  tts_voicevox_speaker_url = none;
}

-- User 3 is active, user 2 is not, user 1 is the owner.
abbrev seen : Answers
seen = record {
  active = some (codes "3" ∷ []);
  visitors = some (visitor 2 ∷ visitor 1 ∷ visitor 3 ∷ []);
  total = some 3;
  visitor = λ u. none;
}

build_presence-members_example :
    let active = codes "3" ∷ [] in
    let rows = visitor 2 ∷ visitor 1 ∷ visitor 3 ∷ [] in
    (build_presence plain_format noon seen slug 1 []).members
    ≡ shown active (picked active 1 true rows) ++ shown active (picked active 1 false rows)
build_presence-members_example = build_presence-members plain_format noon seen slug 1 []
