-- ===== src/Chat/Requests/Handling.antt =====
-- chat/hub.go: what a node holds once it has handled the message of a request.
use mamechat.Prelude.{◌≡◌, ◌∙◌, ap, inl, inr, some, Text, lookup, insert, lookup-insert_self}
use mamechat.Chat.Channel.{LocalChannel}
use mamechat.Chat.Message.{ServerMessage}
use mamechat.Chat.Hub.{World, Env, change_channel}
use mamechat.Chat.Hub.Sending.{broadcast-SameState}
use mamechat.Chat.Bus.{receive, set_channel, handle_message}
use mamechat.Chat.Timer.Quiet.{IsQuiet, IsKept, evaluate_suspend-IsKept}
use mamechat.Chat.Requests.Outcomes.{Agrees, IsRead, Outcome}
use mamechat.Store.{ChannelRow}

-- The channel that a node holds agrees with the row that the database holds.
pub record AreAgreed (env : Env) (slug : Text) (u : World) : Type 0 where
  pub row : ChannelRow
  pub ch : LocalChannel
  pub stored : lookup slug u.table ≡ some row
  pub held : lookup slug u.channels ≡ some ch
  pub agrees : Agrees env row ch

receive-IsQuiet :
    (node : Env) (slug : Text) (ch : LocalChannel) (msg : ServerMessage)
    → IsRead node slug ch msg
    → IsQuiet node slug ch
    → IsQuiet node slug (receive node msg ch)
receive-IsQuiet node slug ch msg r (inl present) = inl (r.present ∙ present)
receive-IsQuiet node slug ch msg r (inr off) = inr (r.suspend_enabled ∙ off)

set_channel-IsKept :
    (node : Env) (slug : Text) (ch : LocalChannel) (msg : ServerMessage) (u : World)
    → lookup slug u.channels ≡ some ch
    → IsRead node slug ch msg
    → IsQuiet node slug ch
    → IsKept slug (receive node msg ch) u (set_channel node slug msg u)
unfolding set_channel change_channel
set_channel-IsKept node slug ch msg u e r quiet = rw e (
    let changed : World = record u { channels = insert slug (receive node msg ch) u.channels } in
    let kept =
      evaluate_suspend-IsKept node slug (receive node msg ch) changed
        (lookup-insert_self slug (receive node msg ch) u.channels) r.thawed
        (receive-IsQuiet node slug ch msg r quiet) in
    record { since = kept.since; channel = kept.channel; table = kept.table })

pub handled-AreAgreed :
    (env node : Env) (slug : Text) (ch : LocalChannel) (w v u : World)
    (o : Outcome env node slug ch w v)
    → lookup slug u.channels ≡ some ch
    → u.table ≡ v.table
    → IsQuiet node slug ch
    → AreAgreed env slug (handle_message node slug o.msg u)
handled-AreAgreed env node slug ch w v u o e t quiet =
    let kept = set_channel-IsKept node slug ch o.msg u e o.read quiet in
    let told = broadcast-SameState slug o.msg (set_channel node slug o.msg u) in
    rw (o.read.handled u) (record {
      row = o.row;
      ch = record (receive node o.msg ch) { owner_absent_since = kept.since };
      stored = ap (lookup slug) (told.table ∙ (kept.table ∙ t)) ∙ o.found;
      held = ap (lookup slug) told.channels ∙ kept.channel;
      agrees = record {
        closed = o.agrees.closed;
        mode = o.agrees.mode;
        deadline = o.agrees.deadline;
        frozen = o.agrees.frozen;
      };
    })
