-- ===== src/Chat/Requests/Agreement.antt =====
-- chat/hub.go: the database and the nodes agree on a channel after a request has been told.
use mamechat.Prelude.{
  ℕ, ◌+◌, ◌<◌, ◌⊎◌, ◌≡◌, refl, sym, ◌∙◌, ap, Bool, true, false, Option, none, some, Text, ◌==◌,
  is_some, lookup, arith, Bool-cases, inl, inr, subst,
}
use mamechat.Chat.Time.{Time, zero_time}
use mamechat.Chat.Channel.{LocalChannel}
use mamechat.Chat.Notices.{channel_operating_mode}
use mamechat.Chat.Hub.{
  World, Env, publish, setting_deadline, starting, setting_unlimited, reading_channel,
}
use mamechat.Chat.Message.{ServerMessage}
use mamechat.Chat.Bus.{receive, handle_message}
use mamechat.Chat.Timer.Quiet.{IsQuiet}
use mamechat.Chat.Requests.Handling.{AreAgreed, handled-AreAgreed}
use mamechat.Chat.Requests.{
  Request, start, open_unlimited, set_duration_to, extend_by, set_unlimited, perform, done,
  operating_message, request_start_operating, request_open_channel, request_set_operating_duration,
  set_duration, move_deadline, set_operating_unlimited, extend, extension_base,
  request_extend_operating, sent, with_table,
}
use mamechat.Store.{
  ChannelRow, started_row, deadline_row, unlimited_row, start_channel_operating,
  set_channel_operating_deadline, set_channel_operating_unlimited,
}
use mamechat.Store.Rows.{lookup-update_where_self, set_if}
use mamechat.Chat.Requests.Outcomes.{
  stored, Thaws, Told, operating-IsRead, mode-IsRead, Agrees, receive-operating, started-Agrees,
  moved-Agrees, unlimited-Agrees, Outcome, outcome, stored_later, moved-row, extension_base_later,
  refused,
}

-- The requests that give a closing time, so that a node forgets its frozen hours.
pub clears_frozen : Request → Bool
clears_frozen (start dur) = true
clears_frozen open_unlimited = false
clears_frozen (set_duration_to dur) = true
clears_frozen (extend_by dur) = true
clears_frozen (set_unlimited b) = false

module _ (env node : Env) (slug : Text) (w : World) (row : ChannelRow) (ch : LocalChannel)
    (same : node.time_format ≡ env.time_format) (found : lookup slug w.table ≡ some row)
    (agrees : Agrees env row ch) where
  opened-Outcome :
      (deadline : Time) (column : Option Time)
      → column ≡ stored env deadline
      → Thaws ch deadline
      → let v = sent (
          publish env slug
            (operating_message env slug deadline)
            (with_table (start_channel_operating column slug w.table).0 w)) in
        v.1 ≡ done → Outcome env node slug ch w v.0
  opened-Outcome deadline column e thaws h =
      outcome env node slug ch w (start_channel_operating column slug w.table).0
        (started_row column row) (operating_message env slug deadline)
        (unfold start_channel_operating in
          (lookup-update_where_self (λ r. true) (started_row column) slug w.table
            ∙ ap (set_if (λ r. true) (started_row column)) found))
        (subst (Agrees env (started_row column row))
          (sym (receive-operating env node slug deadline ch same))
          (rw e (started-Agrees env row ch deadline thaws agrees)))
        (operating-IsRead env node slug ch deadline same thaws) h

  moved-Outcome :
      (deadline : Time)
      → 0 < deadline
      → is_some row.suspended_at ≡ false
      → (move_deadline env slug deadline w).1 ≡ done
      → Outcome env node slug ch w (move_deadline env slug deadline w).0
  unfolding move_deadline
  moved-Outcome deadline later o h =
      let changed = set_channel_operating_deadline (some (env.stamp deadline)) slug w.table in
      elim (Bool-cases (env.fails setting_deadline)) [
        | inl f ↦ refused (rw f at h) (λ e. cc)
        | inr f ↦ elim (Bool-cases (changed.1 == 0)) [
          | inl z ↦ refused (rw (f, z) at h) (λ e. cc)
          | inr z ↦
              rw (f, z)
                (outcome env node slug ch w changed.0 (deadline_row (some (env.stamp deadline)) row)
                  (operating_message env slug deadline)
                  (moved-row (some (env.stamp deadline)) slug w.table found o)
                  (subst (Agrees env (deadline_row (some (env.stamp deadline)) row))
                    (sym (receive-operating env node slug deadline ch same))
                    (rw (stored_later env deadline later)
                      (moved-Agrees env row ch deadline later o agrees)))
                  (operating-IsRead env node slug ch deadline same (inl later)) (rw (f, z) at h))
        ]
      ]

  start-Outcome :
      (dur : ℕ)
      → 0 < env.now
      → (request_start_operating env slug dur w).1 ≡ done
      → Outcome env node slug ch w (request_start_operating env slug dur w).0
  unfolding request_start_operating
  start-Outcome dur later h = elim (Bool-cases (env.fails starting)) [
    | inl f ↦ refused (rw f at h) (λ e. cc)
    | inr f ↦ rw f (
        opened-Outcome (env.now + dur) (some (env.stamp (env.now + dur)))
          (stored_later env (env.now + dur) (omega arith)) (inl (omega arith)) (rw f at h))
  ]

  open-Outcome :
      ch.operating_paused_remaining ≡ 0
      → (request_open_channel env slug w).1 ≡ done
      → Outcome env node slug ch w (request_open_channel env slug w).0
  unfolding request_open_channel
  open-Outcome thawed h = elim (Bool-cases (env.fails starting)) [
    | inl f ↦ refused (rw f at h) (λ e. cc)
    | inr f ↦ rw f (opened-Outcome zero_time none refl (inr thawed) (rw f at h))
  ]

  duration-Outcome :
      (dur : ℕ)
      → 0 < env.now
      → (set_duration env slug dur (some row) w).1 ≡ done
      → Outcome env node slug ch w (set_duration env slug dur (some row) w).0
  unfolding set_duration
  duration-Outcome dur later h = elim (Bool-cases (is_some row.suspended_at)) [
    | inl c ↦ rw c (elim (Bool-cases (env.fails starting)) [
      | inl f ↦ refused (rw (c, f) at h) (λ e. cc)
      | inr f ↦ rw f (
          opened-Outcome (env.now + dur) (some (env.stamp (env.now + dur)))
            (stored_later env (env.now + dur) (omega arith)) (inl (omega arith)) (rw (c, f) at h))
    ])
    | inr o ↦ rw o (moved-Outcome (env.now + dur) (omega arith) o (rw o at h))
  ]

  extend-Outcome :
      (dur : ℕ)
      → 0 < env.now
      → (extend env slug dur (some row) w).1 ≡ done
      → Outcome env node slug ch w (extend env slug dur (some row) w).0
  unfolding extend
  extend-Outcome dur later h = elim (Bool-cases (is_some row.suspended_at)) [
    | inl c ↦ refused (rw c at h) (λ e. cc)
    | inr o ↦ rw o (
        moved-Outcome (extension_base env.now row.operating_deadline + dur)
          (extension_base_later env.now dur row.operating_deadline later) o (rw o at h))
  ]

  unlimited-Outcome :
      (b : Bool)
      → ch.operating_paused_remaining ≡ 0
      → (set_operating_unlimited env slug b w).1 ≡ done
      → Outcome env node slug ch w (set_operating_unlimited env slug b w).0
  unfolding set_operating_unlimited
  unlimited-Outcome b thawed h = elim (Bool-cases (env.fails setting_unlimited)) [
    | inl f ↦ refused (rw f at h) (λ e. cc)
    | inr f ↦ rw f (
        outcome env node slug ch w (set_channel_operating_unlimited b slug w.table).0
          (unlimited_row b row) (channel_operating_mode env.time_format env.now slug b)
          (unfold set_channel_operating_unlimited in
            (lookup-update_where_self (λ r. true) (unlimited_row b) slug w.table
              ∙ ap (set_if (λ r. true) (unlimited_row b)) found))
          (unfold receive in unlimited-Agrees env row ch b thawed agrees)
          (mode-IsRead env node slug ch b thawed) (rw f at h))
  ]

  set_duration-Outcome :
      (dur : ℕ)
      → 0 < env.now
      → (request_set_operating_duration env slug dur w).1 ≡ done
      → Outcome env node slug ch w (request_set_operating_duration env slug dur w).0
  unfolding request_set_operating_duration
  set_duration-Outcome dur later h = elim (Bool-cases (env.fails reading_channel)) [
    | inl f ↦ refused (rw f at h) (λ e. cc)
    | inr f ↦ rw (f, found) (duration-Outcome dur later (rw (f, found) at h))
  ]

  extend_by-Outcome :
      (dur : ℕ)
      → 0 < env.now
      → (request_extend_operating env slug dur w).1 ≡ done
      → Outcome env node slug ch w (request_extend_operating env slug dur w).0
  unfolding request_extend_operating
  extend_by-Outcome dur later h = elim (Bool-cases (env.fails reading_channel)) [
    | inl f ↦ refused (rw f at h) (λ e. cc)
    | inr f ↦ rw (f, found) (extend-Outcome dur later (rw (f, found) at h))
  ]

  perform-Outcome :
      (r : Request)
      → 0 < env.now
      → (clears_frozen r ≡ true) ⊎ (ch.operating_paused_remaining ≡ 0)
      → (perform env slug r w).1 ≡ done
      → Outcome env node slug ch w (perform env slug r w).0
  unfolding clears_frozen
  perform-Outcome (start dur) later cleared h = start-Outcome dur later h
  perform-Outcome open_unlimited later (inl e) h = cc
  perform-Outcome open_unlimited later (inr thawed) h = open-Outcome thawed h
  perform-Outcome (set_duration_to dur) later cleared h = set_duration-Outcome dur later h
  perform-Outcome (extend_by dur) later cleared h = extend_by-Outcome dur later h
  perform-Outcome (set_unlimited b) later (inl e) h = cc
  perform-Outcome (set_unlimited b) later (inr thawed) h = unlimited-Outcome b thawed h

  -- A request that succeeds has, last of all, published a message, and a node that has handled that
  -- message whole, with the evaluation it ends in, holds a channel that agrees with the row in the
  -- database: whether it is open, its mode, its closing time, and whether its hours are frozen. This
  -- is so if the channel and the row agreed before the request, the clock does
  -- not stand at the zero time, the node reads times in the same
  -- format and has the table as the request left it, the owner is there as the node sees it or the
  -- channel has no grace period (else the evaluation may freeze the hours anew), and no hours are
  -- frozen where the request gives no closing time (opening without limit, setting the mode).
  pub perform-Agrees :
      (r : Request) (u : World)
      → 0 < env.now
      → (clears_frozen r ≡ true) ⊎ (ch.operating_paused_remaining ≡ 0)
      → (perform env slug r w).1 ≡ done
      → lookup slug u.channels ≡ some ch
      → u.table ≡ (perform env slug r w).0.table
      → IsQuiet node slug ch
      → (msg : ServerMessage) × Told slug msg w (perform env slug r w).0
        × AreAgreed env slug (handle_message node slug msg u)
  perform-Agrees r u later cleared h e t quiet =
      let o = perform-Outcome r later cleared h in
      (o.msg, o.told, handled-AreAgreed env node slug ch w (perform env slug r w).0 u o e t quiet)
