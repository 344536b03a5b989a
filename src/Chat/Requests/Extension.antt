-- ===== src/Chat/Requests/Extension.antt =====
-- chat/hub.go: `RequestExtendOperating`, and what it does to frozen opening hours.
use mamechat.Prelude.{
  ℕ, ◌+◌, ◌*◌, ◌<◌, max, ◌≡◌, refl, ap, ◌∙◌, false, none, some, Text, pos, ◌==◌, is_some, lookup,
  arith, Bool-cases, inl, inr,
}
use mamechat.Chat.Time.{Time, second}
use mamechat.Chat.Hub.{World, Env, reading_channel, setting_deadline}
use mamechat.Chat.Requests.{
  done, request_extend_operating, extend, extension_base, move_deadline, operating_message,
  with_table,
}
use mamechat.Chat.Requests.Outcomes.{sent_done, moved-row, refused}
use mamechat.Store.{
  ChannelRow, deadline_row, resume_channel_operating, set_channel_operating_deadline,
}
use mamechat.Store.Rows.{lookup-resume}

move_deadline-row :
    (env : Env) (slug : Text) (deadline : Time) (w : World) (row : ChannelRow)
    → lookup slug w.table ≡ some row
    → is_some row.suspended_at ≡ false
    → (move_deadline env slug deadline w).1 ≡ done
    → lookup slug (move_deadline env slug deadline w).0.table
      ≡ some (deadline_row (some (env.stamp deadline)) row)
unfolding move_deadline
move_deadline-row env slug deadline w row found o h =
    let changed = set_channel_operating_deadline (some (env.stamp deadline)) slug w.table in
    elim (Bool-cases (env.fails setting_deadline)) [
      | inl f ↦ refused (rw f at h) (λ e. cc)
      | inr f ↦ elim (Bool-cases (changed.1 == 0)) [
        | inl z ↦ refused (rw (f, z) at h) (λ e. cc)
        | inr z ↦
            rw (f, z)
              (ap (lookup slug)
                  (sent_done env slug (operating_message env slug deadline) (with_table changed.0 w)
                    (rw (f, z) at h)).1
                ∙ moved-row (some (env.stamp deadline)) slug w.table found o)
      ]
    ]

extension_base-max : (now deadline : Time) → extension_base now (some deadline) ≡ max deadline now
unfolding extension_base
extension_base-max now deadline = ground arith

module _ (env : Env) (slug : Text) (dur : ℕ) (w : World) (row : ChannelRow)
    (found : lookup slug w.table ≡ some row)
    (answer : (request_extend_operating env slug dur w).1 ≡ done) where
  extended :
      (is_some row.suspended_at ≡ false)
      × (lookup slug (request_extend_operating env slug dur w).0.table
          ≡ some (
              deadline_row
                (some (env.stamp (extension_base env.now row.operating_deadline + dur)))
                row))
  unfolding request_extend_operating extend
  extended = elim (Bool-cases (env.fails reading_channel)) [
    | inl f ↦ refused (rw f at answer) (λ e. cc)
    | inr f ↦ elim (Bool-cases (is_some row.suspended_at)) [
      | inl c ↦ refused (rw (f, found, extend, c) at answer) (λ e. cc)
      | inr o ↦ (
        o,
        rw (f, found, extend, o)
            (move_deadline-row env slug (extension_base env.now row.operating_deadline + dur) w row
              found o (rw (f, found, extend, o) at answer)),
      )
    ]
  ]

  -- A successful extension of a channel with a closing time moves it by the given time, or to that
  -- time from now if it has passed.
  pub request_extend_operating_lem :
      (deadline : Time)
      → row.operating_deadline ≡ some deadline
      → lookup slug (request_extend_operating env slug dur w).0.table
        ≡ some (deadline_row (some (env.stamp (max deadline env.now + dur))) row)
  request_extend_operating_lem deadline e =
      extended.1 ∙ ap (λ t. some (deadline_row (some (env.stamp (t + dur))) row)) (base e)
    where
      base :
          row.operating_deadline ≡ some deadline
          → extension_base env.now row.operating_deadline ≡ max deadline env.now
      base p = rw p (extension_base-max env.now deadline)

  -- A successful extension of a channel that has no closing time and of which more is frozen than
  -- the given time ends the frozen hours: the channel closes the given time from now, though a
  -- resumption at the same moment would have left it open for longer.
  pub request_extend_operating-frozen :
      (s : ℕ)
      → row.operating_deadline ≡ none
      → row.operating_paused_remaining_seconds ≡ some (pos s)
      → dur < s * second
      → (lookup slug (request_extend_operating env slug dur w).0.table
          ≡ some (deadline_row (some (env.stamp (env.now + dur))) row))
        × ((resume_channel_operating env.now slug w.table).1 ≡ some (some (env.now + s * second)))
        × (env.now + dur < env.now + s * second)
  request_extend_operating-frozen s e p more = (
    extended.1
        ∙ ap (λ o. some (deadline_row (some (env.stamp (extension_base env.now o + dur))) row)) e
        ∙ unfold extension_base in refl,
    (lookup-resume env.now s slug w.table found extended.0 p).1,
    omega arith,
  )
