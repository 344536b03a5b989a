-- ===== src/Chat/Hub/Delivery.antt =====
-- chat/hub.go: whom a broadcast reaches, and whom it drops.
use mamechat.Prelude.{
  ℕ, ◌≡◌, refl, sym, ◌∙◌, ap, Bool, false, ◌||◌, List, [], ◌∷◌, ◌++◌, Text, ltb, ◌==◌, ==_iff,
  if◌then◌else◌, length, lookup, arith, Bool-cases, inl, inr,
}
use mamechat.Chat.User.{Client}
use mamechat.Chat.Message.{ServerMessage}
use mamechat.Chat.Hub.{
  World, Outbox, Reason, Effect, send_queue_size, enqueue, enqueue_all, disconnect, send_and_drop,
  broadcast, clients_of, noted,
}

unfoldable pub has_key : ℕ → List Client → Bool
has_key k [] = false
has_key k (c ∷ cs) = (c.key == k) || has_key k cs

-- The connections are open, and no two of them are the same.
unfoldable pub AreOpen : List Client → World → Type 0
AreOpen [] w = Unit
AreOpen (c ∷ cs) w = ((w.outbox c.key).closed ≡ false) × AreOpen cs w

unfoldable pub AreDistinct : List Client → Type 0
AreDistinct [] = Unit
AreDistinct (c ∷ cs) = (has_key c.key cs ≡ false) × AreDistinct cs

abbrev pub has_room : Outbox → Bool
has_room box = ltb (length box.waiting) send_queue_size

-- A buffer with one more message, if it has room.
abbrev pub fed : ServerMessage → Outbox → Outbox
fed msg box = if has_room box then record box { waiting = box.waiting ++ msg ∷ [] } else box

-- The clients whose buffers are full.
pub slow_of : (ℕ → Outbox) → List Client → List Client
slow_of boxes [] = []
slow_of boxes (c ∷ cs) =
    let rest = slow_of boxes cs in if has_room (boxes c.key) then rest else c ∷ rest

-- The log after some clients were disconnected, one after the other.
pub after_drops : List Client → List Effect → List Effect
after_drops [] log = log
after_drops (c ∷ cs) log = after_drops cs (Effect.disconnected c.key Reason.slow_client ∷ log)

-- What one send does: the buffer is fed, and the client is slow if there is no room.
record Sent (key : ℕ) (msg : ServerMessage) (w : World) (r : World × Bool) : Type 0 where
  box : (k : ℕ) → r.0.outbox k ≡ (if k == key then fed msg (w.outbox k) else w.outbox k)
  taken : r.1 ≡ has_room (w.outbox key)
  log : r.0.log ≡ w.log
  calm : r.0.crashed ≡ w.crashed

enqueue-Sent :
    (key : ℕ) (msg : ServerMessage) (w : World)
    → (w.outbox key).closed ≡ false
    → Sent key msg w (enqueue key msg w)
unfolding enqueue
enqueue-Sent key msg w ready = elim (Bool-cases (has_room (w.outbox key))) [
  | inl e ↦
      rw (ready, e)
        (record {
          box = λ k. elim (Bool-cases (k == key)) [
            | inl f ↦
                let same = (==_iff k key).0 f in
                rw
                  (
                    f,
                    ap (λ j. has_room (w.outbox j)) same ∙ e,
                    ap (λ j. (w.outbox j).closed) same ∙ ready,
                  )
                  (ap
                    (λ j. record (w.outbox j) {
                      waiting = (w.outbox j).waiting ++ msg ∷ [];
                      closed = false;
                    })
                    (sym same))
            | inr f ↦ rw f refl
          ];
          taken = sym e;
          log = refl;
          calm = refl;
        })
  | inr e ↦
      rw (ready, e)
        (record {
          box = λ k. elim (Bool-cases (k == key)) [
            | inl f ↦ rw (f, ap (λ j. has_room (w.outbox j)) ((==_iff k key).0 f) ∙ e) refl
            | inr f ↦ rw f refl
          ];
          taken = sym e;
          log = refl;
          calm = refl;
        })
]

==_comm : (j k : ℕ) → (j == k) ≡ (k == j)
==_comm j k = ground arith

or-false : (a b : Bool) → (a || b) ≡ false → (a ≡ false) × (b ≡ false)
or-false a b h = ground arith

-- What a send to one client leaves for the others.
module _ (key : ℕ) (msg : ServerMessage) (w : World) (r : World × Bool) (s : Sent key msg w r) where
  same_boxes : (k : ℕ) → (k == key) ≡ false → r.0.outbox k ≡ w.outbox k
  same_boxes k e = s.box k ∙ (rw e refl)

  slow_of-sent :
      (cs : List Client) → has_key key cs ≡ false → slow_of r.0.outbox cs ≡ slow_of w.outbox cs
  unfolding slow_of has_key
  slow_of-sent [] h = refl
  slow_of-sent (c ∷ cs) h =
      let (this, others) = or-false (c.key == key) (has_key key cs) h in
      rw (same_boxes c.key this, slow_of-sent cs others) refl

  AreOpen-sent : (cs : List Client) → has_key key cs ≡ false → AreOpen cs w → AreOpen cs r.0
  unfolding AreOpen has_key
  AreOpen-sent [] h o = tt
  AreOpen-sent (c ∷ cs) h (o, os) =
      let (this, others) = or-false (c.key == key) (has_key key cs) h in
      (rw (same_boxes c.key this) o, AreOpen-sent cs others os)

-- What sending to some clients does.
record SentAll (cs : List Client) (msg : ServerMessage) (w : World) (r : World × List Client)
    : Type 0 where
  box : (k : ℕ) → r.0.outbox k ≡ (if has_key k cs then fed msg (w.outbox k) else w.outbox k)
  slow : r.1 ≡ slow_of w.outbox cs
  log : r.0.log ≡ w.log
  calm : r.0.crashed ≡ w.crashed

-- Distinct clients are each fed once.
fed_once :
    (c : Client) (cs : List Client) (msg : ServerMessage) (w : World) (k : ℕ)
    → has_key c.key cs ≡ false
    → let b : Outbox = if k == c.key then fed msg (w.outbox k) else w.outbox k in
      (if has_key k cs then fed msg b else b)
      ≡ (if has_key k (c ∷ cs) then fed msg (w.outbox k) else w.outbox k)
unfolding has_key
fed_once c cs msg w k h = elim (Bool-cases (k == c.key)) [
  | inl e ↦
      let same = (==_iff k c.key).0 e in
      rw (e, ap (λ j. has_key j cs) same ∙ h, ==_comm c.key k ∙ e) refl
  | inr e ↦ rw (e, ==_comm c.key k ∙ e) refl
]

enqueue_all-SentAll :
    (cs : List Client) (msg : ServerMessage) (w : World)
    → AreOpen cs w
    → AreDistinct cs
    → SentAll cs msg w (enqueue_all cs msg w)
unfolding enqueue_all AreOpen AreDistinct slow_of has_key
enqueue_all-SentAll [] msg w o d = record { box = λ k. refl; slow = refl; log = refl; calm = refl }
enqueue_all-SentAll (c ∷ cs) msg w (o, os) (d, ds) =
    let r = enqueue c.key msg w in
    let s = enqueue-Sent c.key msg w o in
    let rest = enqueue_all-SentAll cs msg r.0 (AreOpen-sent c.key msg w r s cs d os) ds in
    record {
      box = λ k.
          rest.box k
          ∙ (ap (λ b. if has_key k cs then fed msg b else b) (s.box k) ∙ fed_once c cs msg w k d);
      slow = rw (s.taken, rest.slow, slow_of-sent c.key msg w r s cs d) refl;
      log = rest.log ∙ s.log;
      calm = rest.calm ∙ s.calm;
    }

-- What disconnecting some clients does.
record Dropped (cs : List Client) (w v : World) : Type 0 where
  box : (k : ℕ) → v.outbox k ≡ w.outbox k
  log : v.log ≡ after_drops cs w.log
  calm : v.crashed ≡ w.crashed

disconnect-Dropped :
    (cs : List Client) (w : World) → Dropped cs w (disconnect Reason.slow_client cs w)
unfolding disconnect after_drops
disconnect-Dropped [] w = record { box = λ k. refl; log = refl; calm = refl }
disconnect-Dropped (c ∷ cs) w =
    let rest = disconnect-Dropped cs (noted (Effect.disconnected c.key Reason.slow_client) w) in
    record { box = rest.box; log = rest.log; calm = rest.calm }

-- A broadcast to clients of the channel that are distinct and whose buffers are open puts the
-- message, once and last, into the buffer of each that has room, and into no other; those without
-- room are disconnected as slow, in their order, and nothing panics.
pub broadcast_delivers :
    (slug : Text) (msg : ServerMessage) (w : World) (k : ℕ)
    → let cs = clients_of (lookup slug w.channels) in
      AreOpen cs w
      → AreDistinct cs
      → let v = broadcast slug msg w in
        (v.outbox k ≡ (if has_key k cs then fed msg (w.outbox k) else w.outbox k))
        × (v.log ≡ after_drops (slow_of w.outbox cs) w.log)
        × (v.crashed ≡ w.crashed)
unfolding broadcast send_and_drop
broadcast_delivers slug msg w k ready distinct =
    let cs = clients_of (lookup slug w.channels) in
    let sent = enqueue_all-SentAll cs msg w ready distinct in
    let r = enqueue_all cs msg w in
    let gone = disconnect-Dropped r.1 r.0 in
    (gone.box k ∙ sent.box k, gone.log ∙ (rw (sent.slow, sent.log) refl), gone.calm ∙ sent.calm)
