-- ===== src/Chat/Timer/Quiet.antt =====
-- chat/hub.go: an evaluation that neither freezes nor resumes anything.
use mamechat.Prelude.{
  ◌≡◌, refl, ◌∙◌, ap, true, false, ◌⊎◌, inl, inr, Option, none, some, Text, ◌==◌, lookup, insert,
  lookup-insert_self, arith, Bool-cases,
}
use mamechat.Chat.Time.{Time, zero_time, is_zero}
use mamechat.Chat.Channel.{LocalChannel, Decision, reassess, compute_suspend_deadline}
use mamechat.Chat.Hub.{World, Env}
use mamechat.Chat.Hub.Sending.{broadcast_presence-SameState}
use mamechat.Chat.Timer.{
  owner_present, start_timer, replace_timer, set_suspend_timer, persist_pause, persist_resume,
  evaluate, evaluate_suspend,
}
use mamechat.Chat.Timer.Evaluation.{set_suspend_timer-channels}

-- The owner is there, or the channel has no grace period.
abbrev pub IsQuiet : Env → Text → LocalChannel → Type 0
IsQuiet env slug ch = (owner_present env slug ch ≡ true) ⊎ (ch.suspend_enabled ≡ false)

start_timer-table :
    (env : Env) (slug : Text) (deadline : Time) (w : World)
    → (start_timer env slug deadline w).table ≡ w.table
unfolding start_timer
start_timer-table env slug deadline w = (broadcast_presence-SameState env slug _).table

replace_timer-table :
    (env : Env) (slug : Text) (deadline : Time) (o : Option Time) (w : World)
    → (replace_timer env slug deadline o w).table ≡ w.table
unfolding replace_timer
replace_timer-table env slug deadline none w = elim (Bool-cases (is_zero deadline)) [
  | inl e ↦ rw e refl
  | inr e ↦ rw e (start_timer-table env slug deadline w)
]
replace_timer-table env slug deadline (some prev) w = elim (Bool-cases (is_zero deadline)) [
  | inl e ↦ rw e ((broadcast_presence-SameState env slug _).table)
  | inr e ↦ elim (Bool-cases (prev == deadline)) [
    | inl f ↦ rw (e, f) refl
    | inr f ↦ rw (e, f) (start_timer-table env slug deadline w)
  ]
]

set_suspend_timer-table :
    (env : Env) (slug : Text) (deadline : Time) (w : World)
    → (set_suspend_timer env slug deadline w).table ≡ w.table
unfolding set_suspend_timer
set_suspend_timer-table env slug deadline w =
    replace_timer-table env slug deadline (lookup slug w.timers) w

-- A channel that has nothing frozen and is evaluated in this way.
record IsUnmoved (ch : LocalChannel) (d : Decision) : Type 0 where
  since : Time
  channel : d.channel ≡ record ch { owner_absent_since = since }
  pause : d.pause_auto_close ≡ zero_time
  resume : d.resume_deadline ≡ zero_time

reassess-IsUnmoved :
    (env : Env) (slug : Text) (ch : LocalChannel)
    → ch.operating_paused_remaining ≡ 0
    → IsQuiet env slug ch
    → IsUnmoved ch (reassess ch (owner_present env slug ch) env.now)
unfolding reassess
reassess-IsUnmoved env slug ch h (inl e) = rw e (record {
  since = zero_time;
  channel = ground arith;
  pause = ground arith;
  resume = ground arith;
})
reassess-IsUnmoved env slug ch h (inr e) = elim (Bool-cases (owner_present env slug ch)) [
  | inl p ↦ rw p (record {
    since = zero_time;
    channel = ground arith;
    pause = ground arith;
    resume = ground arith;
  })
  | inr p ↦
      rw (p, e)
        (record {
          since = ch.owner_absent_since;
          channel = ground arith;
          pause = ground arith;
          resume = ground arith;
        })
]

-- A channel is as it was but for when its owner was missed, and the database is as it was.
pub record IsKept (slug : Text) (ch : LocalChannel) (w v : World) : Type 0 where
  pub since : Time
  pub channel : lookup slug v.channels ≡ some (record ch { owner_absent_since = since })
  pub table : v.table ≡ w.table

persist_resume_none :
    (env : Env) (slug : Text) (d : Decision) (w : World)
    → d.resume_deadline ≡ zero_time
    → persist_resume env slug d w ≡ w
unfolding persist_resume
persist_resume_none env slug d w h = rw h refl

persist_pause_none :
    (env : Env) (slug : Text) (d : Decision) (w : World)
    → d.pause_auto_close ≡ zero_time
    → persist_pause env slug d w ≡ w
unfolding persist_pause
persist_pause_none env slug d w h = rw h refl

pub evaluate_suspend-IsKept :
    (env : Env) (slug : Text) (ch : LocalChannel) (w : World)
    → lookup slug w.channels ≡ some ch
    → ch.operating_paused_remaining ≡ 0
    → IsQuiet env slug ch
    → IsKept slug ch w (evaluate_suspend env slug w)
unfolding evaluate_suspend
evaluate_suspend-IsKept env slug ch w e h quiet =
    let d = reassess ch (owner_present env slug ch) env.now in
    let same = reassess-IsUnmoved env slug ch h quiet in
    let deadline = compute_suspend_deadline d.channel (owner_present env slug ch) env.now in
    let stored : World = record w { channels = insert slug d.channel w.channels } in
    rw (e, evaluate)
      (elim (Bool-cases (ch.owner_user_id == 0)) [
        | inl z ↦ rw z (record { since = ch.owner_absent_since; channel = e; table = refl })
        | inr z ↦
            rw
              (
                z,
                persist_pause_none env slug d stored same.pause,
                persist_resume_none env slug d stored same.resume,
              )
              (record {
                since = same.since;
                channel =
                    ap (lookup slug) (set_suspend_timer-channels env slug deadline stored)
                    ∙ (lookup-insert_self slug d.channel w.channels ∙ ap some same.channel);
                table = set_suspend_timer-table env slug deadline stored;
              })
      ])
