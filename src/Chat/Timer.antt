-- ===== src/Chat/Timer.antt =====
-- chat/hub.go: the evaluation of a channel (`evaluateSuspend`), its timer and its closing.
pub mod Evaluation
pub mod Quiet
use mamechat.Prelude.{
  ℕ, ◌/◌, Bool, true, false, not, ◌&&◌, ◌||◌, Option, none, some, List, [], ◌∷◌, Text, any, ◌==◌,
  int32, if◌then◌else◌, lookup, insert, delete,
}
use mamechat.Chat.Time.{Time, zero_time, is_zero, second, parse_time}
use mamechat.Chat.Channel.{
  LocalChannel, Decision, reassess, compute_suspend_deadline, apply_operating, apply_paused,
  apply_unlimited,
}
use mamechat.Chat.Message.{ServerMessage}
use mamechat.Chat.Notices.{channel_operating, channel_operating_paused, channel_suspended}
use mamechat.Chat.Presence.{is_active}
use mamechat.Chat.Hub.{
  World, Env, listing_active, pausing, resuming, suspending, publish, broadcast_presence,
  change_channel,
}
use mamechat.Store.{pause_channel_operating, resume_channel_operating, suspend_channel_if_active}

-- The owner is connected to this node, or active on some node.
unfoldable pub owner_present : Env → Text → LocalChannel → Bool
owner_present env slug ch =
    any (λ c. c.user.id == ch.owner_user_id) ch.clients
    || (not (env.fails listing_active) && is_active (env.active slug) ch.owner_user_id)

unfoldable pub start_timer : Env → Text → Time → World → World
start_timer env slug deadline w =
    broadcast_presence env slug (record w { timers = insert slug deadline w.timers })

replace_timer : Env → Text → Time → Option Time → World → World
replace_timer env slug deadline none w =
    if is_zero deadline then w else start_timer env slug deadline w
replace_timer env slug deadline (some prev) w =
    if is_zero deadline
    then broadcast_presence env slug (record w { timers = delete slug w.timers })
    else if prev == deadline
    then w
    else start_timer env slug deadline w

-- `setSuspendTimer`
unfoldable pub set_suspend_timer : Env → Text → Time → World → World
unfolding replace_timer start_timer
set_suspend_timer env slug deadline w = replace_timer env slug deadline (lookup slug w.timers) w

-- The message of a pause, with the whole seconds that are left.
abbrev pub paused_message : Env → Text → Decision → ServerMessage
paused_message env slug d =
    channel_operating_paused env.time_format env.now slug d.pause_auto_close
      (int32 (d.pause_remaining / second))

-- A pause is stored and told to all nodes.
unfoldable pub persist_pause : Env → Text → Decision → World → World
persist_pause env slug d w =
    if is_zero d.pause_auto_close || env.fails pausing
    then w
    else (publish env slug (paused_message env slug d)
        (record w { table = (pause_channel_operating env.db_now slug w.table).0 })).0

announce_resume : Env → Text → Time → Option (Option Time) → World → World
announce_resume env slug local none w = w
announce_resume env slug local (some none) w =
    (publish env slug (channel_operating env.time_format env.now slug local) w).0
announce_resume env slug local (some (some stored)) w =
    (publish env slug (channel_operating env.time_format env.now slug stored) w).0

-- A resumption is stored, and the deadline of the database is told to the other nodes.
unfoldable pub persist_resume : Env → Text → Decision → World → World
unfolding announce_resume
persist_resume env slug d w =
    let (table, answer) = resume_channel_operating env.db_now slug w.table in
    if is_zero d.resume_deadline || env.fails resuming
    then w
    else announce_resume env slug d.resume_deadline answer (record w { table = table })

evaluate : Env → Text → Option LocalChannel → World → World
evaluate env slug none w = w
evaluate env slug (some ch) w =
    let present = owner_present env slug ch in
    let d = reassess ch present env.now in
    if ch.owner_user_id == 0
    then w
    else set_suspend_timer env slug (compute_suspend_deadline d.channel present env.now) (
        persist_resume env slug d
          (persist_pause env slug d (record w { channels = insert slug d.channel w.channels })))

-- `evaluateSuspend`
unfoldable pub evaluate_suspend : Env → Text → World → World
unfolding evaluate
evaluate_suspend env slug w = evaluate env slug (lookup slug w.channels) w

-- `suspendChannel`
unfoldable pub suspend_channel : Env → Text → World → World
suspend_channel env slug w =
    let (table, affected) = suspend_channel_if_active env.db_now slug w.table in
    if env.fails suspending
    then w
    else if affected == 0
    then record w { table = table }
    else (publish env slug (channel_suspended env.time_format env.now slug)
        (record w { table = table })).0

-- The function that the timer runs when it is due.
unfoldable pub timer_fires : Env → Text → World → World
unfolding suspend_channel
timer_fires env slug w = suspend_channel env slug (record w { timers = delete slug w.timers })

unfoldable pub set_channel_operating : Env → Text → Bool → Time → World → World
set_channel_operating env slug suspended deadline w =
    evaluate_suspend env slug (change_channel slug (λ ch. apply_operating ch suspended deadline) w)
