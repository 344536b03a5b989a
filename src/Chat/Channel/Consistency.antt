-- ===== src/Chat/Channel/Consistency.antt =====
-- chat/hub.go: what holds of a channel in memory between two changes, and its life as a step
-- relation.
use mamechat.Prelude.{◌≡◌, ◌⊎◌, Bool, true, false, List, ℤ, pos, negsuc, arith}
use mamechat.Chat.Time.{Time, Duration, zero_time}
use mamechat.Chat.User.{Client}
use mamechat.Chat.Channel.{LocalChannel, reassess, apply_operating, apply_paused, apply_unlimited}

-- A frozen channel has no closing time, and a closed channel has neither a closing time nor
-- anything frozen.
pub record IsConsistent (ch : LocalChannel) : Type 0 where
  pub frozen_stops : (ch.operating_paused_remaining ≡ 0) ⊎ (ch.operating_deadline ≡ zero_time)
  pub closed_stops :
      (ch.suspended ≡ false)
      ⊎ ((ch.operating_deadline ≡ zero_time) × (ch.operating_paused_remaining ≡ 0))

-- A change of a channel: by a message of the bus, by a connection or by an evaluation.
pub data Step : LocalChannel → LocalChannel → Type 0 where
  close : (ch : LocalChannel) → Step ch (apply_operating ch true zero_time)
  operate : (ch : LocalChannel) (deadline : Time) → Step ch (apply_operating ch false deadline)
  pause : (ch : LocalChannel) (seconds : ℤ) → Step ch (apply_paused ch seconds)
  set_mode : (ch : LocalChannel) (unlimited : Bool) → Step ch (apply_unlimited ch unlimited)
  evaluate :
      (ch : LocalChannel) (owner_present : Bool) (now : Time)
      → Step ch (reassess ch owner_present now).channel
  connect :
      (ch : LocalChannel) (clients : List Client) (grace : Duration) (enabled : Bool)
      → Step ch (record ch { clients = clients; grace = grace; suspend_enabled = enabled })

pub data Reach (ch : LocalChannel) : LocalChannel → Type 0 where
  here : Reach ch ch
  next : {mid last : LocalChannel} → Reach ch mid → Step mid last → Reach ch last

reassess-IsConsistent :
    (ch : LocalChannel) (owner_present : Bool) (now : Time)
    → IsConsistent ch
    → IsConsistent (reassess ch owner_present now).channel
unfolding reassess
reassess-IsConsistent ch p now v = ground arith

apply_operating-IsConsistent :
    (ch : LocalChannel) (deadline : Time)
    → IsConsistent ch
    → IsConsistent (apply_operating ch false deadline)
unfolding apply_operating
apply_operating-IsConsistent ch d v = ground arith

apply_operating-IsConsistent_closed :
    (ch : LocalChannel) → IsConsistent (apply_operating ch true zero_time)
unfolding apply_operating
apply_operating-IsConsistent_closed ch = ground arith

apply_paused-IsConsistent :
    (ch : LocalChannel) (seconds : ℤ) → IsConsistent ch → IsConsistent (apply_paused ch seconds)
unfolding apply_paused
apply_paused-IsConsistent ch (pos s) v = ground arith
apply_paused-IsConsistent ch (negsuc n) v = ground arith

apply_unlimited-IsConsistent :
    (ch : LocalChannel) (b : Bool) → IsConsistent ch → IsConsistent (apply_unlimited ch b)
unfolding apply_unlimited
apply_unlimited-IsConsistent ch b v = ground arith

Step-IsConsistent : {ch last : LocalChannel} → Step ch last → IsConsistent ch → IsConsistent last
Step-IsConsistent (close ch) v = apply_operating-IsConsistent_closed ch
Step-IsConsistent (operate ch d) v = apply_operating-IsConsistent ch d v
Step-IsConsistent (pause ch s) v = apply_paused-IsConsistent ch s v
Step-IsConsistent (set_mode ch b) v = apply_unlimited-IsConsistent ch b v
Step-IsConsistent (evaluate ch p now) v = reassess-IsConsistent ch p now v
Step-IsConsistent (connect ch cs g e) v = record {
  frozen_stops = v.frozen_stops;
  closed_stops = v.closed_stops;
}

-- Whatever messages, connections and evaluations a consistent channel goes through, it stays
-- consistent: while its opening hours are frozen it has no closing time, and while it is closed
-- it has neither a closing time nor frozen hours.
pub Reach-IsConsistent :
    {ch last : LocalChannel} → IsConsistent ch → Reach ch last → IsConsistent last
Reach-IsConsistent v here = v
Reach-IsConsistent v (next r s) = Step-IsConsistent s (Reach-IsConsistent v r)
