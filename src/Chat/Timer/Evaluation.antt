-- ===== src/Chat/Timer/Evaluation.antt =====
-- chat/hub.go: what one evaluation leaves in the memory of the node.
use mamechat.Prelude.{
  ◌≡◌, refl, ◌∙◌, ap, false, ◌||◌, Option, none, some, Text, ◌==◌, ==_iff, if◌then◌else◌, lookup,
  insert, delete, lookup-insert_self, lookup-delete_self, arith, Bool-cases, inl, inr,
}
use mamechat.Chat.Time.{Time, is_zero}
use mamechat.Chat.Channel.{LocalChannel, Decision, reassess, compute_suspend_deadline}
use mamechat.Chat.Hub.{World, Env, publish, resuming}
use mamechat.Store.{resume_channel_operating}
use mamechat.Chat.Hub.Sending.{SameState, broadcast_presence-SameState}
use mamechat.Chat.Timer.{
  owner_present, start_timer, replace_timer, set_suspend_timer, persist_pause, announce_resume,
  persist_resume, evaluate, evaluate_suspend,
}

-- The timer that a deadline asks for.
abbrev pub timer_for : Time → Option Time
timer_for deadline = if is_zero deadline then none else some deadline

-- The channels are those of another world.
record SameRooms (w v : World) : Type 0 where
  channels : w.channels ≡ v.channels
  timers : w.timers ≡ v.timers

SameState-SameRooms : {w v : World} → SameState w v → SameRooms w v
SameState-SameRooms s = record { channels = s.channels; timers = s.timers }

persist_pause-SameRooms :
    (env : Env) (slug : Text) (d : Decision) (w : World) → SameRooms (persist_pause env slug d w) w
unfolding persist_pause publish
persist_pause-SameRooms env slug d w = ground arith

announce_resume-SameRooms :
    (env : Env) (slug : Text) (local : Time) (o : Option (Option Time)) (w : World)
    → SameRooms (announce_resume env slug local o w) w
unfolding announce_resume publish
announce_resume-SameRooms env slug local none w = record { channels = refl; timers = refl }
announce_resume-SameRooms env slug local (some none) w = ground arith
announce_resume-SameRooms env slug local (some (some t)) w = ground arith

persist_resume-SameRooms :
    (env : Env) (slug : Text) (d : Decision) (w : World) → SameRooms (persist_resume env slug d w) w
unfolding persist_resume
persist_resume-SameRooms env slug d w =
    elim (Bool-cases (is_zero d.resume_deadline || env.fails resuming)) [
      | inl e ↦ rw e (record { channels = refl; timers = refl })
      | inr e ↦ rw e (
          let told =
            announce_resume-SameRooms env slug d.resume_deadline
              (resume_channel_operating env.db_now slug w.table).1
              (record w { table = (resume_channel_operating env.db_now slug w.table).0 }) in
          record { channels = told.channels; timers = told.timers })
    ]

-- The timers of a world hold for a channel what its deadline asks for, and the channels are those
-- of an earlier world.
record HasTimer (slug : Text) (deadline : Time) (w v : World) : Type 0 where
  channels : v.channels ≡ w.channels
  timer : lookup slug v.timers ≡ timer_for deadline

start_timer-HasTimer :
    (env : Env) (slug : Text) (deadline : Time) (w : World)
    → is_zero deadline ≡ false
    → HasTimer slug deadline w (start_timer env slug deadline w)
unfolding start_timer
start_timer-HasTimer env slug deadline w h =
    let same =
      broadcast_presence-SameState env slug (record w { timers = insert slug deadline w.timers }) in
    record {
      channels = same.channels;
      timer =
          ap (lookup slug) same.timers ∙ (lookup-insert_self slug deadline w.timers ∙ (rw h refl));
    }

replace_timer-HasTimer :
    (env : Env) (slug : Text) (deadline : Time) (o : Option Time) (w : World)
    → lookup slug w.timers ≡ o
    → HasTimer slug deadline w (replace_timer env slug deadline o w)
unfolding replace_timer
replace_timer-HasTimer env slug deadline none w e = elim (Bool-cases (is_zero deadline)) [
  | inl z ↦ rw z (record { channels = refl; timer = e ∙ (rw z refl) })
  | inr z ↦ rw z (start_timer-HasTimer env slug deadline w z)
]
replace_timer-HasTimer env slug deadline (some prev) w e = elim (Bool-cases (is_zero deadline)) [
  | inl z ↦ rw z (
      let same =
        broadcast_presence-SameState env slug (record w { timers = delete slug w.timers }) in
      record {
        channels = same.channels;
        timer = ap (lookup slug) same.timers ∙ (lookup-delete_self slug w.timers ∙ (rw z refl));
      })
  | inr z ↦ rw z (elim (Bool-cases (prev == deadline)) [
    | inl p ↦ rw p (record {
      channels = refl;
      timer = e ∙ (ap some ((==_iff prev deadline).0 p) ∙ (rw z refl));
    })
    | inr p ↦ rw p (start_timer-HasTimer env slug deadline w z)
  ])
]

pub set_suspend_timer-channels :
    (env : Env) (slug : Text) (deadline : Time) (w : World)
    → (set_suspend_timer env slug deadline w).channels ≡ w.channels
unfolding set_suspend_timer
set_suspend_timer-channels env slug deadline w =
    (replace_timer-HasTimer env slug deadline (lookup slug w.timers) w refl).channels

-- An evaluation of a channel whose owner is known leaves the channel as the decision has it, and
-- the timer of the channel set to the deadline that was computed, or taken away if there is none.
pub evaluate_suspend_lem :
    (env : Env) (slug : Text) (ch : LocalChannel) (w : World)
    → lookup slug w.channels ≡ some ch
    → (ch.owner_user_id == 0) ≡ false
    → let present = owner_present env slug ch in
      let after = (reassess ch present env.now).channel in
      (lookup slug (evaluate_suspend env slug w).channels ≡ some after)
      × (lookup slug (evaluate_suspend env slug w).timers
          ≡ timer_for (compute_suspend_deadline after present env.now))
unfolding evaluate_suspend set_suspend_timer
evaluate_suspend_lem env slug ch w e known =
    let present = owner_present env slug ch in
    let d = reassess ch present env.now in
    let w1 : World = record w { channels = insert slug d.channel w.channels } in
    let w2 = persist_pause env slug d w1 in
    let w3 = persist_resume env slug d w2 in
    let deadline = compute_suspend_deadline d.channel present env.now in
    let set = replace_timer-HasTimer env slug deadline (lookup slug w3.timers) w3 refl in
    rw (e, evaluate)
      (rw known (
        ap (lookup slug) (
              set.channels
              ∙ ((persist_resume-SameRooms env slug d w2).channels
                  ∙ (persist_pause-SameRooms env slug d w1).channels))
            ∙ lookup-insert_self slug d.channel w.channels,
        set.timer,
      ))
