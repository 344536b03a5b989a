-- ===== src/Chat/Requests/Outcomes.antt =====
-- chat/hub.go: when the database and a node agree on a channel, and what a request that has been told
-- leaves behind.
use mamechat.Prelude.{
  ℕ, ◌+◌, ◌<◌, ◌≡◌, ◌≢◌, ◌⊎◌, ltb, refl, sym, ◌∙◌, ap, Bool, false, Option, none, some, ◌∷◌, Text,
  ==_iff, is_some, if◌then◌else◌, lookup, arith, Bool-cases, inl, inr,
}
use mamechat.Chat.Time.{Time, TimeFormat, is_zero, parse_time}
use mamechat.Chat.Channel.{LocalChannel, apply_operating, apply_unlimited}
use mamechat.Chat.Message.{ServerMessage}
use mamechat.Chat.Hub.{World, Env, published, publish, broadcast}
use mamechat.Chat.Timer.{owner_present}
use mamechat.Chat.Bus.{receive, told_deadline, set_channel, handle_message}
use mamechat.Chat.Notices.{channel_operating_mode}
use mamechat.Chat.Requests.{Answer, done, operating_message, extension_base, sent, with_table}
use mamechat.Store.{
  ChannelRow, Table, is_open, started_row, deadline_row, unlimited_row,
  set_channel_operating_deadline,
}
use mamechat.Store.Rows.{lookup-update_where_self, set_if}

-- The column of a closing time as the node has it.
abbrev pub stored : Env → Time → Option Time
stored env t = if is_zero t then none else some (env.stamp t)

-- A row and the channel of a node agree on whether the channel is open, on its mode, on its closing
-- time, and on whether its opening hours are frozen.
pub record Agrees (env : Env) (row : ChannelRow) (ch : LocalChannel) : Type 0 where
  pub closed : ch.suspended ≡ is_some row.suspended_at
  pub mode : ch.operating_unlimited ≡ row.operating_unlimited
  pub deadline : stored env ch.operating_deadline ≡ row.operating_deadline
  pub frozen : ltb 0 ch.operating_paused_remaining ≡ is_some row.operating_paused_remaining_seconds

-- A channel that is told of a closing time, or that has nothing frozen.
abbrev pub Thaws : LocalChannel → Time → Type 0
Thaws ch deadline = (0 < deadline) ⊎ (ch.operating_paused_remaining ≡ 0)

-- The latest effect of a request is its message.
abbrev pub Told : Text → ServerMessage → World → World → Type 0
Told slug msg w v = v.log ≡ published slug msg ∷ w.log

-- What a node reads in a message of an opening is what was put into it.
pub told_deadline-operating :
    (env node : Env) (slug : Text) (deadline : Time)
    → node.time_format ≡ env.time_format
    → told_deadline node (operating_message env slug deadline) ≡ deadline
unfolding told_deadline parse_time
told_deadline-operating env node slug deadline same = elim (Bool-cases (is_zero deadline)) [
  | inl z ↦ rw z (sym ((==_iff deadline 0).0 z))
  | inr z ↦
      let parsed : node.time_format.parse (env.time_format.format deadline) ≡ some deadline =
        ap (λ (f : TimeFormat). f.parse (env.time_format.format deadline)) same
        ∙ env.time_format.parse-format deadline in
      rw z (rw (env.time_format.format_nonempty deadline) (rw parsed refl))
]

pub receive-operating :
    (env node : Env) (slug : Text) (deadline : Time) (ch : LocalChannel)
    → node.time_format ≡ env.time_format
    → receive node (operating_message env slug deadline) ch ≡ apply_operating ch false deadline
unfolding receive
receive-operating env node slug deadline ch same =
    ap (apply_operating ch false) (told_deadline-operating env node slug deadline same)

-- A row that was just opened agrees with a channel that was told so.
pub started-Agrees :
    (env : Env) (row : ChannelRow) (ch : LocalChannel) (deadline : Time)
    → Thaws ch deadline
    → Agrees env row ch
    → Agrees env (started_row (stored env deadline) row) (apply_operating ch false deadline)
unfolding apply_operating
started-Agrees env row ch deadline (inl later) a = record {
  closed = ground arith;
  mode = ground arith;
  deadline = ground arith;
  frozen = ground arith;
}
started-Agrees env row ch deadline (inr thawed) a = record {
  closed = ground arith;
  mode = ground arith;
  deadline = ground arith;
  frozen = ground arith;
}

pub moved-Agrees :
    (env : Env) (row : ChannelRow) (ch : LocalChannel) (deadline : Time)
    → 0 < deadline
    → is_some row.suspended_at ≡ false
    → Agrees env row ch
    → Agrees env (deadline_row (stored env deadline) row) (apply_operating ch false deadline)
unfolding apply_operating
moved-Agrees env row ch deadline later o a = record {
  closed = ground arith;
  mode = ground arith;
  deadline = ground arith;
  frozen = ground arith;
}

pub unlimited-Agrees :
    (env : Env) (row : ChannelRow) (ch : LocalChannel) (b : Bool)
    → ch.operating_paused_remaining ≡ 0
    → Agrees env row ch
    → Agrees env (unlimited_row b row) (apply_unlimited ch b)
unfolding apply_unlimited
unlimited-Agrees env row ch b thawed a = ground arith

-- How a node takes a message: nothing is frozen afterwards, whether the owner is there and whether
-- there is a grace period is as before, and the channel is changed, evaluated and told.
pub record IsRead (node : Env) (slug : Text) (ch : LocalChannel) (msg : ServerMessage)
    : Type 0 where
  pub thawed : (receive node msg ch).operating_paused_remaining ≡ 0
  pub suspend_enabled : (receive node msg ch).suspend_enabled ≡ ch.suspend_enabled
  pub present : owner_present node slug (receive node msg ch) ≡ owner_present node slug ch
  pub handled :
      (u : World)
      → handle_message node slug msg u ≡ broadcast slug msg (set_channel node slug msg u)

operated-IsRead :
    (node : Env) (slug : Text) (ch : LocalChannel) (deadline : Time)
    → Thaws ch deadline
    → ((apply_operating ch false deadline).operating_paused_remaining ≡ 0)
      × ((apply_operating ch false deadline).suspend_enabled ≡ ch.suspend_enabled)
      × (owner_present node slug (apply_operating ch false deadline) ≡ owner_present node slug ch)
unfolding apply_operating owner_present
operated-IsRead node slug ch deadline thaws = elim (Bool-cases (is_zero deadline)) [
  | inl z ↦ rw z (ground arith, refl, refl)
  | inr z ↦ rw z (refl, refl, refl)
]

pub operating-IsRead :
    (env node : Env) (slug : Text) (ch : LocalChannel) (deadline : Time)
    → node.time_format ≡ env.time_format
    → Thaws ch deadline
    → IsRead node slug ch (operating_message env slug deadline)
unfolding handle_message
operating-IsRead env node slug ch deadline same thaws =
    let (thawed, enabled, present) = operated-IsRead node slug ch deadline thaws in
    let e = receive-operating env node slug deadline ch same in
    record {
      thawed = ap (λ (c : LocalChannel). c.operating_paused_remaining) e ∙ thawed;
      suspend_enabled = ap (λ (c : LocalChannel). c.suspend_enabled) e ∙ enabled;
      present = ap (owner_present node slug) e ∙ present;
      handled = λ u. refl;
    }

pub mode-IsRead :
    (env node : Env) (slug : Text) (ch : LocalChannel) (b : Bool)
    → ch.operating_paused_remaining ≡ 0
    → IsRead node slug ch (channel_operating_mode env.time_format env.now slug b)
unfolding handle_message receive apply_unlimited owner_present
mode-IsRead env node slug ch b h = record {
  thawed = h;
  suspend_enabled = refl;
  present = refl;
  handled = λ u. refl;
}

-- The outcome of a request that has been told: the row, the message, and their agreement.
pub record Outcome (env node : Env) (slug : Text) (ch : LocalChannel) (w v : World) : Type 0 where
  pub row : ChannelRow
  pub found : lookup slug v.table ≡ some row
  pub msg : ServerMessage
  pub told : Told slug msg w v
  pub agrees : Agrees env row (receive node msg ch)
  pub read : IsRead node slug ch msg

pub sent_done :
    (env : Env) (slug : Text) (msg : ServerMessage) (w : World)
    → (sent (publish env slug msg w)).1 ≡ done
    → ((sent (publish env slug msg w)).0.log ≡ published slug msg ∷ w.log)
      × ((sent (publish env slug msg w)).0.table ≡ w.table)
unfolding publish
sent_done env slug msg w h = ground arith

-- A table with the new row, told with the message that the row agrees with.
pub outcome :
    (env node : Env) (slug : Text) (ch : LocalChannel) (w : World) (t : Table) (row : ChannelRow)
    (msg : ServerMessage)
    → lookup slug t ≡ some row
    → Agrees env row (receive node msg ch)
    → IsRead node slug ch msg
    → (sent (publish env slug msg (with_table t w))).1 ≡ done
    → Outcome env node slug ch w (sent (publish env slug msg (with_table t w))).0
outcome env node slug ch w t row msg found agrees read h =
    let (log, table) = sent_done env slug msg (with_table t w) h in
    record {
      row = row;
      found = ap (lookup slug) table ∙ found;
      msg = msg;
      told = log;
      agrees = agrees;
      read = read;
    }

pub stored_later : (env : Env) (t : Time) → 0 < t → some (env.stamp t) ≡ stored env t
stored_later env t h = ground arith

pub moved-row :
    (column : Option Time) (slug : Text) (t : Table) {row : ChannelRow}
    → lookup slug t ≡ some row
    → is_some row.suspended_at ≡ false
    → lookup slug (set_channel_operating_deadline column slug t).0 ≡ some (deadline_row column row)
unfolding set_channel_operating_deadline
moved-row column slug t e o =
    lookup-update_where_self is_open (deadline_row column) slug t
    ∙ (ap (set_if is_open (deadline_row column)) e ∙ (rw o refl))

pub extension_base_later : (now dur : ℕ) (d : Option ℕ) → 0 < now → 0 < extension_base now d + dur
unfolding extension_base
extension_base_later now dur none h = omega arith
extension_base_later now dur (some t) h = ground arith

pub refused : {A : Type 0} {x : Answer} → x ≡ done → x ≢ done → A
refused e n = absurd (n e)
