-- ===== src/Chat/Lobby/Serving.antt =====
-- chat/lobby.go: the subscribers are served, whatever the order of the steps.
use mamechat.Prelude.{
  ℕ, zero, suc, ◌≡◌, ◌⊎◌, inl, inr, refl, sym, ap, ◌∙◌, Bool, true, false, not, List, [], ◌∷◌, ◌==◌,
  ==_refl, keep, arith, Bool-cases,
}
use mamechat.Chat.Message.{ServerMessage}
use mamechat.Chat.Hub.{World, Env}
use mamechat.Chat.Lobby.{
  LoopPhase, stopped, checking, gathering, waiting, sending, Lobby, enqueue_lobby, register_lobby,
  unregister_lobby, check_lobby, loop_from, run_lobby, start_burst, broadcast_lobby, send_first,
  send_burst,
}

abbrev pub is_looping : LoopPhase → Bool
is_looping stopped = false
is_looping checking = true
is_looping gathering = true
is_looping waiting = true
is_looping (sending msg ks) = true

-- The flag tells whether the loop runs, and it runs while there are subscribers.
pub record IsServed (l : Lobby) : Type 0 where
  pub flag : l.running ≡ is_looping l.loop
  pub served : (l.clients ≡ []) ⊎ (l.running ≡ true)

-- A step: a subscriber comes or goes, the loop goes on, or a broadcast goes on that a registration
-- has started.
pub data LobbyStep : Lobby → Lobby → Type 0 where
  subscribe : (key : ℕ) (l : Lobby) → LobbyStep l (register_lobby key l)
  unsubscribe : (key : ℕ) (l : Lobby) → LobbyStep l (unregister_lobby key l)
  loop_on :
      (env : Env) (listed : Bool) (w : World) (l : Lobby) → LobbyStep l (run_lobby env listed w l)
  begin :
      (env : Env) (listed : Bool) (w : World) (l : Lobby)
      → LobbyStep l (broadcast_lobby env listed w l)
  send : (l : Lobby) → LobbyStep l (send_burst l)

pub data LobbyReach (l : Lobby) : Lobby → Type 0 where
  start : LobbyReach l l
  step : {mid last : Lobby} → LobbyReach l mid → LobbyStep mid last → LobbyReach l last

-- The parts of the state that the loop and the subscribers share.
record SameLoop (l m : Lobby) : Type 0 where
  clients : m.clients ≡ l.clients
  running : m.running ≡ l.running
  loop : m.loop ≡ l.loop

enqueue_lobby-SameLoop :
    (key : ℕ) (msg : ServerMessage) (l : Lobby) → SameLoop l (enqueue_lobby key msg l)
unfolding enqueue_lobby
enqueue_lobby-SameLoop key msg l = ground arith

register_lobby-IsServed : (key : ℕ) (l : Lobby) → IsServed l → IsServed (register_lobby key l)
unfolding register_lobby
register_lobby-IsServed key l s = ground arith

unregister_lobby-IsServed : (key : ℕ) (l : Lobby) → IsServed l → IsServed (unregister_lobby key l)
unfolding unregister_lobby
unregister_lobby-IsServed key l s =
    let left : (keep (λ k. not (k == key)) l.clients ≡ []) ⊎ (l.running ≡ true) = elim s.served [
      | inl e ↦ inl (rw e refl)
      | inr r ↦ inr r
    ] in
    elim (Bool-cases (l.outbox key).closed) [
      | inl e ↦ rw e (record { flag = s.flag; served = left })
      | inr e ↦ rw e (record { flag = s.flag; served = left })
    ]

check_lobby-IsServed :
    (ks : List ℕ) (l : Lobby) → l.clients ≡ ks → l.running ≡ true → IsServed (check_lobby ks l)
unfolding check_lobby
check_lobby-IsServed [] l e r = record { flag = refl; served = inl e }
check_lobby-IsServed (k ∷ ks) l e r = record { flag = r; served = inr r }

SameLoop-IsServed : {l m : Lobby} → SameLoop l m → IsServed l → IsServed m
SameLoop-IsServed {l} {m} same s = record {
  flag = same.running ∙ s.flag ∙ ap is_looping (sym same.loop);
  served = elim s.served [ inl e ↦ inl (same.clients ∙ e) | inr r ↦ inr (same.running ∙ r) ];
}

loop_from-IsServed :
    (env : Env) (listed : Bool) (w : World) (p : LoopPhase) (l : Lobby)
    → l.loop ≡ p
    → IsServed l
    → IsServed (loop_from env listed w p l)
unfolding loop_from
loop_from-IsServed env listed w stopped l e s = s
loop_from-IsServed env listed w checking l e s =
    check_lobby-IsServed l.clients l refl (s.flag ∙ ap is_looping e)
loop_from-IsServed env listed w gathering l e s = ground (arith, s.flag ∙ ap is_looping e)
loop_from-IsServed env listed w (sending msg []) l e s = record {
  flag = s.flag ∙ ap is_looping e;
  served = s.served;
}
loop_from-IsServed env listed w (sending msg (k ∷ ks)) l e s =
    let same = enqueue_lobby-SameLoop k msg l in
    let after = SameLoop-IsServed same s in
    record { flag = same.running ∙ s.flag ∙ ap is_looping e; served = after.served }
loop_from-IsServed env listed w waiting l e s = record {
  flag = s.flag ∙ ap is_looping e;
  served = s.served;
}

start_burst-SameLoop :
    (env : Env) (listed : Bool) (w : World) (n : ℕ) (l : Lobby)
    → SameLoop l (start_burst env listed w n l)
unfolding start_burst
start_burst-SameLoop env listed w zero l = record { clients = refl; running = refl; loop = refl }
start_burst-SameLoop env listed w (suc n) l = ground arith

send_first-SameLoop :
    (bs : List (ServerMessage × List ℕ)) (l : Lobby) → SameLoop l (send_first bs l)
unfolding send_first
send_first-SameLoop [] l = record { clients = refl; running = refl; loop = refl }
send_first-SameLoop ((msg, []) ∷ rest) l = record { clients = refl; running = refl; loop = refl }
send_first-SameLoop ((msg, k ∷ ks) ∷ rest) l =
    let same = enqueue_lobby-SameLoop k msg l in
    record { clients = same.clients; running = same.running; loop = same.loop }

LobbyStep-IsServed : {l m : Lobby} → LobbyStep l m → IsServed l → IsServed m
unfolding run_lobby broadcast_lobby send_burst
LobbyStep-IsServed (subscribe key l) s = register_lobby-IsServed key l s
LobbyStep-IsServed (unsubscribe key l) s = unregister_lobby-IsServed key l s
LobbyStep-IsServed (loop_on env listed w l) s = loop_from-IsServed env listed w l.loop l refl s
LobbyStep-IsServed (begin env listed w l) s =
    SameLoop-IsServed (start_burst-SameLoop env listed w l.started l) s
LobbyStep-IsServed (send l) s = SameLoop-IsServed (send_first-SameLoop l.bursts l) s

-- In whatever order subscribers come and go, the loop goes on and broadcasts are sent, the flag
-- tells whether the loop runs, and the loop runs while there are subscribers, if that held at the
-- start.
pub LobbyReach-IsServed : {l m : Lobby} → IsServed l → LobbyReach l m → IsServed m
LobbyReach-IsServed s start = s
LobbyReach-IsServed s (step r t) = LobbyStep-IsServed t (LobbyReach-IsServed s r)

-- If a subscriber leaves while the loop has a message to send to it next, the send panics.
pub unregister_lobby_panics :
    (env : Env) (listed : Bool) (w : World) (msg : ServerMessage) (k : ℕ) (ks : List ℕ) (l : Lobby)
    → l.loop ≡ sending msg (k ∷ ks)
    → (run_lobby env listed w (unregister_lobby k l)).crashed ≡ true
unfolding run_lobby unregister_lobby enqueue_lobby
unregister_lobby_panics env listed w msg k ks l e = elim (Bool-cases (l.outbox k).closed) [
  | inl c ↦ rw (c, e, loop_from) (rw c refl)
  | inr c ↦ rw (c, e, loop_from) (rw (==_refl k) refl)
]
