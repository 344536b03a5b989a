-- ===== src/Chat/Connections.antt =====
-- chat/hub.go: connections come and go (`Register`, `Unregister`), are recorded, and are closed by
-- the hub.
pub mod Members
use mamechat.Prelude.{
  ℕ, ◌*◌, ◌/◌, ◌+◌, Bool, true, false, not, ◌&&◌, ◌||◌, Option, none, some, List, [], ◌∷◌, ◌++◌,
  Text, ℤ, pos, negsuc, any, keep, ltb, leb, ◌==◌, int32, decimal, if◌then◌else◌, lookup, insert,
  delete,
}
use mamechat.Chat.Time.{Time, Duration, zero_time, is_zero, second, time_left}
use mamechat.Chat.User.{Client}
use mamechat.Chat.Channel.{LocalChannel, or_now, resolve_grace}
use mamechat.Chat.Message.{ServerMessage}
use mamechat.Chat.Notices.{channel_kicked, channel_operating_paused}
use mamechat.Chat.Hub.{
  World, Env, Outbox, Reason, recreated, session_revoked, channel_deleted, channel_closed,
  subscribing, marking_active, removing_active, clearing_active, seeing_visitor, marking_posted,
  pausing, started, stopped, marked_active, removed_active, cleared_active, seen, posted,
  disconnected, disconnected_later, evaluation_due, noted, attempt, publish, publish_refresh,
  set_outbox, enqueue, disconnect, clients_of, broadcast_presence,
}
use mamechat.Chat.Timer.{set_suspend_timer}
use mamechat.Store.{pause_channel_operating}

-- `clearActive`
unfoldable pub clear_active : Env → Text → World → World
clear_active env slug w = attempt env clearing_active (cleared_active slug) w

-- `markVisitorSeen`, which is also `MarkSeen`.
unfoldable pub mark_visitor_seen : Env → Client → World → World
mark_visitor_seen env c w =
    attempt env seeing_visitor (seen c)
      (attempt env marking_active (marked_active c.channel_slug (decimal c.user.id)) w)

-- `RecordPost`
unfoldable pub record_post : Env → Client → World → World
record_post env c w =
    attempt env marking_posted (posted c)
      (attempt env marking_active (marked_active c.channel_slug (decimal c.user.id)) w)

-- The part of `Register` for a channel of the same name that was deleted and made again.
drop_stale : Env → Client → Option LocalChannel → World → World
drop_stale env c none w = w
drop_stale env c (some stale) w =
    if stale.channel_id == c.channel_id
    then w
    else clear_active env c.channel_slug (
        disconnect recreated stale.clients (
          noted (stopped c.channel_slug) (record w {
            channels = delete c.channel_slug w.channels;
            timers = delete c.channel_slug w.timers;
          })))

abbrev or_zero_time : Option Time → Time
or_zero_time none = zero_time
or_zero_time (some t) = t

abbrev restored_pause : Option ℤ → Duration
restored_pause none = 0
restored_pause (some (pos s)) = s * second
restored_pause (some (negsuc n)) = 0

-- The state that `Register` restores from what the connection read in the database.
unfoldable pub new_channel : Client → LocalChannel
new_channel c = record {
  slug = c.channel_slug;
  channel_id = c.channel_id;
  owner_user_id = c.channel_owner_id;
  grace = 0;
  suspend_enabled = false;
  clients = [];
  suspended = c.channel_suspended;
  operating_deadline = or_zero_time c.operating_deadline;
  operating_unlimited = c.operating_unlimited;
  owner_absent_since = zero_time;
  operating_paused_remaining = restored_pause c.operating_paused;
}

abbrev pub has_client : ℕ → List Client → Bool
has_client key cs = any (λ c. c.key == key) cs

-- A client joins a channel, and the channel takes the current setting of the grace period.
unfoldable pub joined : Env → Client → LocalChannel → LocalChannel
joined env c ch =
    let (grace, enabled) = resolve_grace env.grace env.grace_enabled c.suspend_grace_seconds in
    record ch {
      clients = if has_client c.key ch.clients then ch.clients else c ∷ ch.clients;
      grace = grace;
      suspend_enabled = enabled;
    }

abbrev after_join : Env → Client → World → World
after_join env c w = noted (evaluation_due c.channel_slug) (
    publish_refresh env c.channel_slug
      (broadcast_presence env c.channel_slug (mark_visitor_seen env c w)))

join : Env → Client → Option LocalChannel → World → World × Bool
join env c (some ch) w = (
  after_join env c (record w { channels = insert c.channel_slug (joined env c ch) w.channels }),
  true,
)
join env c none w = if env.fails subscribing then (w, false) else (
  after_join env c (
      noted (started c.channel_slug)
        (record w { channels = insert c.channel_slug (joined env c (new_channel c)) w.channels })),
  true,
)

-- `Register`, with whether it succeeded.
unfoldable pub register : Env → Client → World → World × Bool
unfolding join drop_stale
register env c w =
    let w' = drop_stale env c (lookup c.channel_slug w.channels) w in
    join env c (lookup c.channel_slug w'.channels) w'

-- The pause of a channel that everybody has left is stored and told to the other nodes.
leave_pause : Env → Text → LocalChannel → World → World
leave_pause env slug ch w =
    let left = time_left ch.operating_deadline env.now in
    let closing = or_now ch.owner_absent_since env.now + ch.grace in
    if env.fails pausing
    then w
    else (publish env slug
        (channel_operating_paused env.time_format env.now slug closing (int32 (left / second)))
        (record w { table = (pause_channel_operating env.db_now slug w.table).0 })).0

-- What the hub remembers of a channel that everybody has left: the timer, and with it the pause.
-- `ch` is the channel as it was.
leave_timer : Env → Text → LocalChannel → World → World
unfolding leave_pause
leave_timer env slug ch w =
    let left = time_left ch.operating_deadline env.now in
    let already = ltb 0 ch.operating_paused_remaining in
    let away = ch.suspend_enabled && not (is_zero ch.operating_deadline) && leb ch.grace left in
    let closing = or_now ch.owner_absent_since env.now + ch.grace in
    if ch.owner_user_id == 0 || ch.suspended || ch.operating_unlimited
    then w
    else if ch.suspend_enabled && (away || already)
    then set_suspend_timer env slug closing (
        if away && not already && not (is_zero ch.operating_deadline)
        then leave_pause env slug ch w
        else w)
    else if is_zero ch.operating_deadline
    then w
    else set_suspend_timer env slug ch.operating_deadline w

abbrev pub without : ℕ → List Client → List Client
without key cs = keep (λ c. not (c.key == key)) cs

-- `close(client.Send)`, which panics if it is closed.
unfoldable pub close_outbox : ℕ → World → World
close_outbox key w =
    let box = w.outbox key in
    if box.closed
    then record w { crashed = true }
    else record w { outbox = set_outbox key (record box { closed = true }) w.outbox }

-- The parts of `Unregister`: under the lock; the active set and the presence; what is left.
leave_local : Client → LocalChannel → List Client → World → World
leave_local c ch [] w =
    noted (stopped c.channel_slug)
      (record (close_outbox c.key w) { channels = delete c.channel_slug w.channels })
leave_local c ch (d ∷ ds) w = record (close_outbox c.key w) {
  channels = insert c.channel_slug (record ch { clients = d ∷ ds }) w.channels;
}

leave_active : Env → Client → List Client → World → World
leave_active env c rest w =
    if any (λ d. d.user.id == c.user.id) rest
    then w
    else attempt env removing_active (removed_active c.channel_slug (decimal c.user.id)) w

leave_end : Env → Text → LocalChannel → List Client → World → World
leave_end env slug ch [] w = leave_timer env slug ch w
leave_end env slug ch (d ∷ ds) w = noted (evaluation_due slug) w

leave : Env → Client → Option LocalChannel → World → World
leave env c none w = w
leave env c (some ch) w =
    let rest = without c.key ch.clients in
    leave_end env c.channel_slug ch rest (
      publish_refresh env c.channel_slug
        (broadcast_presence env c.channel_slug (leave_active env c rest (leave_local c ch rest w))))

-- `Unregister`
unfoldable pub unregister : Env → Client → World → World
unfolding leave leave_end leave_local leave_active leave_timer
unregister env c w = leave env c (lookup c.channel_slug w.channels) w

-- Tells clients that they are put out, and closes their connections, later if they were told.
unfoldable pub kick : Env → Text → Reason → List Client → World → World
kick env slug reason [] w = w
kick env slug reason (c ∷ cs) w =
    let (w', sent) = enqueue c.key (channel_kicked env.time_format env.now slug) w in
    kick env slug reason cs
      (noted (if sent then disconnected_later c.key reason else disconnected c.key reason) w')

-- `kickAll`
unfoldable pub kick_all : Env → Text → World → World
kick_all env slug w = kick env slug channel_deleted (clients_of (lookup slug w.channels)) w

abbrev pub non_owners : Option LocalChannel → List Client
non_owners none = []
non_owners (some ch) = keep (λ c. not (c.user.id == ch.owner_user_id)) ch.clients

-- `kickNonOwners`
unfoldable pub kick_non_owners : Env → Text → World → World
kick_non_owners env slug w = kick env slug channel_closed (non_owners (lookup slug w.channels)) w

drop_local : Text → Option LocalChannel → World → World
drop_local slug none w = w
drop_local slug (some ch) w = noted (stopped slug) (record w { channels = delete slug w.channels })

-- `DropChannel`
unfoldable pub drop_channel : Env → Text → World → World
unfolding drop_local
drop_channel env slug w =
    let found = lookup slug w.channels in
    let dropped = drop_local slug found w in
    clear_active env slug (
      kick env slug channel_deleted (clients_of found)
        (record dropped { timers = delete slug dropped.timers }))

-- The clients of every channel that pass a test.
unfoldable pub clients_where : (Client → Bool) → List (Text × LocalChannel) → List Client
clients_where p [] = []
clients_where p ((slug, ch) ∷ rest) = keep p ch.clients ++ clients_where p rest

unfoldable pub disconnect_session : ℕ → World → World
disconnect_session session_id w =
    disconnect session_revoked (clients_where (λ c. c.session_id == session_id) w.channels) w

unfoldable pub disconnect_user : ℕ → World → World
disconnect_user user_id w =
    disconnect session_revoked (clients_where (λ c. c.user.id == user_id) w.channels) w

unfoldable pub disconnect_all : World → World
disconnect_all w = disconnect session_revoked (clients_where (λ c. true) w.channels) w
