-- ===== src/Chat/Hub/Sending.antt =====
-- chat/hub.go: what sending to connections leaves alone.
use mamechat.Prelude.{ℕ, ◌≡◌, refl, ◌∙◌, Option, none, some, List, [], ◌∷◌, Text, arith}
use mamechat.Chat.User.{Client}
use mamechat.Chat.Channel.{LocalChannel}
use mamechat.Chat.Message.{ServerMessage}
use mamechat.Chat.Hub.{
  World, Env, Reason, Effect, noted, attempt, publish, enqueue, enqueue_all, disconnect,
  send_and_drop, broadcast, present_to, broadcast_presence, Service,
}

-- The state of the channels, the timers and the database is that of another world.
pub record SameState (w v : World) : Type 0 where
  pub channels : w.channels ≡ v.channels
  pub timers : w.timers ≡ v.timers
  pub table : w.table ≡ v.table

pub SameState-refl : (w : World) → SameState w w
SameState-refl w = record { channels = refl; timers = refl; table = refl }

pub SameState-trans : {u v w : World} → SameState u v → SameState v w → SameState u w
SameState-trans a b = record {
  channels = a.channels ∙ b.channels;
  timers = a.timers ∙ b.timers;
  table = a.table ∙ b.table;
}

enqueue-SameState : (key : ℕ) (msg : ServerMessage) (w : World) → SameState (enqueue key msg w).0 w
unfolding enqueue
enqueue-SameState key msg w = ground arith

enqueue_all-SameState :
    (cs : List Client) (msg : ServerMessage) (w : World) → SameState (enqueue_all cs msg w).0 w
unfolding enqueue_all
enqueue_all-SameState [] msg w = SameState-refl w
enqueue_all-SameState (c ∷ cs) msg w =
    SameState-trans (enqueue_all-SameState cs msg (enqueue c.key msg w).0)
      (enqueue-SameState c.key msg w)

pub disconnect-SameState :
    (reason : Reason) (cs : List Client) (w : World) → SameState (disconnect reason cs w) w
unfolding disconnect
disconnect-SameState reason [] w = SameState-refl w
disconnect-SameState reason (c ∷ cs) w =
    SameState-trans (disconnect-SameState reason cs (noted (Effect.disconnected c.key reason) w))
      (record { channels = refl; timers = refl; table = refl })

send_and_drop-SameState :
    (cs : List Client) (msg : ServerMessage) (w : World) → SameState (send_and_drop cs msg w) w
unfolding send_and_drop
send_and_drop-SameState cs msg w =
    SameState-trans
      (disconnect-SameState Reason.slow_client (enqueue_all cs msg w).1 (enqueue_all cs msg w).0)
      (enqueue_all-SameState cs msg w)

pub broadcast-SameState :
    (slug : Text) (msg : ServerMessage) (w : World) → SameState (broadcast slug msg w) w
unfolding broadcast
broadcast-SameState slug msg w = send_and_drop-SameState _ msg w

present_to-SameState :
    (env : Env) (slug : Text) (o : Option LocalChannel) (w : World)
    → SameState (present_to env slug o w) w
unfolding present_to
present_to-SameState env slug none w = SameState-refl w
present_to-SameState env slug (some ch) w = send_and_drop-SameState _ _ w

pub broadcast_presence-SameState :
    (env : Env) (slug : Text) (w : World) → SameState (broadcast_presence env slug w) w
unfolding broadcast_presence
broadcast_presence-SameState env slug w = present_to-SameState env slug _ w

pub publish-SameState :
    (env : Env) (slug : Text) (msg : ServerMessage) (w : World)
    → SameState (publish env slug msg w).0 w
unfolding publish
publish-SameState env slug msg w = ground arith

pub attempt-SameState :
    (env : Env) (s : Service) (e : Effect) (w : World) → SameState (attempt env s e w) w
unfolding attempt
attempt-SameState env s e w = ground arith
