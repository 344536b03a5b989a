-- ===== src/Chat/Lobby.antt =====
-- chat/lobby.go: the subscribers of the list of channels, and the loop that serves them. The loop
-- runs beside the other operations, so that its steps are told apart where it gives up the lock.
pub mod Serving
use mamechat.Prelude.{
  ℕ, zero, suc, Bool, true, false, not, ◌&&◌, Option, none, some, List, [], ◌∷◌, ◌++◌, Text, ◌==◌,
  ltb, any, keep, length, if◌then◌else◌, map,
}
use mamechat.Chat.Time.{Time, TimeFormat}
use mamechat.Chat.Message.{ServerMessage, LobbyChannel}
use mamechat.Chat.Notices.{lobby_presence}
use mamechat.Chat.Presence.{build_presence}
use mamechat.Chat.Hub.{World, Env, Outbox, set_outbox, suspend_deadline_for}
use mamechat.Chat.Admission.{owner_id}
use mamechat.Store.{ChannelRow, Table}

abbrev pub lobby_queue_size : ℕ
lobby_queue_size = 8

-- Where `runLobby` is: it does not run, is about to look for subscribers, is about to broadcast,
-- has still to send a message to some subscribers, or waits for the ticker.
pub data LoopPhase : Type 0 where
  stopped checking gathering waiting : LoopPhase
  sending : ServerMessage → List ℕ → LoopPhase

-- `lobbyState`, with the place of the loop, the broadcasts that `RegisterLobby` has started and
-- that have still to send, and the buffers of the subscribers.
pub record Lobby : Type 0 where
  pub clients : List ℕ
  pub running : Bool
  pub loop : LoopPhase
  pub started : ℕ
  pub bursts : List (ServerMessage × List ℕ)
  pub outbox : ℕ → Outbox
  pub crashed : Bool

-- The summary of one channel.
abbrev lobby_channel : Env → World → Text × ChannelRow → LobbyChannel
lobby_channel env w (slug, row) =
    let p =
      build_presence env.time_format env.now (env.answers slug row.id) slug
        (owner_id row.owner_user_id) [] in
    record {
      channel_slug = slug;
      owner = p.owner;
      members = p.members;
      active_count = p.active_count;
      total_count = p.total_count;
      suspend_deadline = suspend_deadline_for env slug w;
    }

-- The message of `broadcastLobby`.
unfoldable pub lobby_message : Env → World → ServerMessage
lobby_message env w = lobby_presence env.time_format env.now (map (lobby_channel env w) w.table)

-- `LobbyClient.Enqueue`; a send on a closed channel panics.
unfoldable pub enqueue_lobby : ℕ → ServerMessage → Lobby → Lobby
enqueue_lobby key msg l =
    let box = l.outbox key in
    if box.closed
    then record l { crashed = true }
    else if ltb (length box.waiting) lobby_queue_size
    then record l {
      outbox = set_outbox key (record box { waiting = box.waiting ++ msg ∷ [] }) l.outbox;
    }
    else l

unfoldable pub register_lobby : ℕ → Lobby → Lobby
register_lobby key l =
    let joined = record l {
      clients = if any (λ k. k == key) l.clients then l.clients else key ∷ l.clients;
    } in
    if l.running
    then record joined { started = suc l.started }
    else record joined { running = true; loop = checking }

unfoldable pub unregister_lobby : ℕ → Lobby → Lobby
unregister_lobby key l =
    let box = l.outbox key in
    let left = record l { clients = keep (λ k. not (k == key)) l.clients } in
    if box.closed
    then record left { crashed = true }
    else record left { outbox = set_outbox key (record box { closed = true }) l.outbox }

check_lobby : List ℕ → Lobby → Lobby
check_lobby [] l = record l { running = false; loop = stopped }
check_lobby (k ∷ ks) l = record l { loop = gathering }

-- One step of the loop. `listed` is whether the channels could be listed.
loop_from : Env → Bool → World → LoopPhase → Lobby → Lobby
loop_from env listed w stopped l = l
loop_from env listed w checking l = check_lobby l.clients l
loop_from env listed w gathering l = record l {
  loop = if listed then sending (lobby_message env w) l.clients else waiting;
}
loop_from env listed w (sending msg []) l = record l { loop = waiting }
loop_from env listed w (sending msg (k ∷ ks)) l = record (enqueue_lobby k msg l) {
  loop = sending msg ks;
}
loop_from env listed w waiting l = record l { loop = checking }

unfoldable pub run_lobby : Env → Bool → World → Lobby → Lobby
unfolding loop_from check_lobby
run_lobby env listed w l = loop_from env listed w l.loop l

start_burst : Env → Bool → World → ℕ → Lobby → Lobby
start_burst env listed w zero l = l
start_burst env listed w (suc n) l =
    let less = record l { started = n } in
    if listed then record less { bursts = (lobby_message env w, l.clients) ∷ l.bursts } else less

-- A broadcast that a registration started lists its receivers.
unfoldable pub broadcast_lobby : Env → Bool → World → Lobby → Lobby
unfolding start_burst
broadcast_lobby env listed w l = start_burst env listed w l.started l

send_first : List (ServerMessage × List ℕ) → Lobby → Lobby
send_first [] l = l
send_first ((msg, []) ∷ rest) l = record l { bursts = rest }
send_first ((msg, k ∷ ks) ∷ rest) l = record (enqueue_lobby k msg l) { bursts = (msg, ks) ∷ rest }

-- Such a broadcast sends to its next receiver.
unfoldable pub send_burst : Lobby → Lobby
unfolding send_first
send_burst l = send_first l.bursts l
