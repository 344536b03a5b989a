-- ===== src/Chat/Connections/Members.antt =====
-- chat/hub.go: who is in a channel after a connection has come or gone.
use mamechat.Prelude.{
  ℕ, ◌+◌, ◌≡◌, refl, sym, ◌∙◌, ap, Bool, true, false, Option, none, some, List, [], ◌∷◌, Text, any,
  ◌==◌, ==_refl, if◌then◌else◌, lookup, insert, delete, lookup-insert_self, lookup-delete_self,
  arith, Bool-cases, inl, inr,
}
use mamechat.Chat.User.{Client}
use mamechat.Chat.Channel.{LocalChannel, resolve_grace, or_now}
use mamechat.Chat.Hub.{
  World, Env, Effect, Reason, noted, publish, publish_refresh, broadcast_presence, disconnect,
  clients_of, subscribing,
}
use mamechat.Chat.Hub.Sending.{
  broadcast_presence-SameState, publish-SameState, attempt-SameState, disconnect-SameState,
}
use mamechat.Chat.Timer.Evaluation.{set_suspend_timer-channels}
use mamechat.Chat.Connections.{
  mark_visitor_seen, clear_active, drop_stale, new_channel, has_client, joined, after_join, join,
  register, leave_timer, without, close_outbox, leave_local, leave_active, leave, leave_end,
  leave_pause, unregister,
}

after_join-SameState :
    (env : Env) (c : Client) (w : World) → (after_join env c w).channels ≡ w.channels
unfolding mark_visitor_seen
after_join-SameState env c w =
    let seen = mark_visitor_seen env c w in
    let shown = broadcast_presence env c.channel_slug seen in
    (publish-SameState env c.channel_slug _ shown).channels
    ∙ (broadcast_presence-SameState env c.channel_slug seen).channels
    ∙ (attempt-SameState env _ _ _).channels
    ∙ (attempt-SameState env _ _ w).channels

-- What a client finds after a registration.
abbrev pub Joined : Env → Client → World → Type 0
Joined env c w =
    (ch : LocalChannel) × (lookup c.channel_slug w.channels ≡ some ch)
    × (ch.channel_id ≡ c.channel_id)
    × (has_client c.key ch.clients ≡ true)
    × ((ch.grace, ch.suspend_enabled)
        ≡ resolve_grace env.grace env.grace_enabled c.suspend_grace_seconds)

joined-has_client :
    (env : Env) (c : Client) (ch : LocalChannel) → has_client c.key (joined env c ch).clients ≡ true
unfolding joined
joined-has_client env c ch = ground (arith, ==_refl c.key)

refused : ◌≡◌ {A = Bool} false true → ⊥
refused e = cc

clash : {ch : LocalChannel} → ◌≡◌ {A = Option LocalChannel} none (some ch) → ⊥
clash e = cc

-- The channels after the stale one was dropped, whatever came of clearing its active set.
dropped-channels :
    (env : Env) (c : Client) (stale : LocalChannel) (w : World)
    → (clear_active env c.channel_slug (
        disconnect Reason.recreated stale.clients (
          noted (Effect.stopped c.channel_slug) (record w {
            channels = delete c.channel_slug w.channels;
            timers = delete c.channel_slug w.timers;
          })))).channels
      ≡ delete c.channel_slug w.channels
unfolding clear_active
dropped-channels env c stale w =
    (attempt-SameState env _ _ _).channels
    ∙ (disconnect-SameState Reason.recreated stale.clients _).channels

join-Joined :
    (env : Env) (c : Client) (o : Option LocalChannel) (w : World)
    → ((ch : LocalChannel) → o ≡ some ch → ch.channel_id ≡ c.channel_id)
    → (join env c o w).1 ≡ true
    → Joined env c (join env c o w).0
unfolding join
join-Joined env c (some ch) w same h = (
  joined env c ch,
  ap (lookup c.channel_slug) (
        after_join-SameState env c
          (record w { channels = insert c.channel_slug (joined env c ch) w.channels }))
      ∙ lookup-insert_self c.channel_slug (joined env c ch) w.channels,
  unfold joined in same ch refl,
  joined-has_client env c ch,
  unfold joined in refl,
)
join-Joined env c none w same h = elim (Bool-cases (env.fails subscribing)) [
  | inl f ↦ absurd (refused (rw f at h))
  | inr f ↦ rw f (
      let ch = joined env c (new_channel c) in
      let opened : World =
        noted (Effect.started c.channel_slug)
          (record w { channels = insert c.channel_slug ch w.channels }) in
      (
        ch,
        ap (lookup c.channel_slug) (after_join-SameState env c opened)
            ∙ lookup-insert_self c.channel_slug ch w.channels,
        unfold joined new_channel in refl,
        joined-has_client env c (new_channel c),
        unfold joined in refl,
      ))
]

-- A channel that is found after the stale one was dropped is the client's.
drop_stale-id :
    (env : Env) (c : Client) (o : Option LocalChannel) (w : World) (ch : LocalChannel)
    → lookup c.channel_slug w.channels ≡ o
    → lookup c.channel_slug (drop_stale env c o w).channels ≡ some ch
    → ch.channel_id ≡ c.channel_id
unfolding drop_stale clear_active
drop_stale-id env c none w ch e h = absurd (clash (sym e ∙ h))
drop_stale-id env c (some stale) w ch e h = elim (Bool-cases (stale.channel_id == c.channel_id)) [
  | inl p ↦ ground (arith, rw p at h)
  | inr p ↦ absurd (
      clash (
        sym (lookup-delete_self c.channel_slug w.channels)
        ∙ (sym (ap (lookup c.channel_slug) (dropped-channels env c stale w)) ∙ (rw p at h))))
]

-- A successful registration leaves the channel with the identifier that the client connected to,
-- also where a channel of the same name was there before, with the client among its connections,
-- and with the grace period that the client read.
pub register-Joined :
    (env : Env) (c : Client) (w : World)
    → (register env c w).1 ≡ true
    → Joined env c (register env c w).0
unfolding register
register-Joined env c w h =
    let o = lookup c.channel_slug w.channels in
    let w' = drop_stale env c o w in
    join-Joined env c (lookup c.channel_slug w'.channels) w'
      (λ ch e. drop_stale-id env c o w ch refl e) h

has_client-without :
    (k key : ℕ) (cs : List Client)
    → has_client k (without key cs) ≡ (if k == key then false else has_client k cs)
has_client-without k key [] = ground arith
has_client-without k key (c ∷ cs) = ground (arith, has_client-without k key cs)

leave_pause-channels :
    (env : Env) (slug : Text) (ch : LocalChannel) (w : World)
    → (leave_pause env slug ch w).channels ≡ w.channels
unfolding leave_pause publish
leave_pause-channels env slug ch w = ground arith

leave_timer-channels :
    (env : Env) (slug : Text) (ch : LocalChannel) (w : World)
    → (leave_timer env slug ch w).channels ≡ w.channels
unfolding leave_timer
leave_timer-channels env slug ch w =
    let kept = set_suspend_timer-channels env slug in
    ground (
      arith,
      kept ch.operating_deadline w,
      kept (or_now ch.owner_absent_since env.now + ch.grace) w,
      kept (or_now ch.owner_absent_since env.now + ch.grace) (leave_pause env slug ch w),
      leave_pause-channels env slug ch w,
    )

told-channels :
    (env : Env) (c : Client) (rest : List Client) (w : World)
    → (publish_refresh env c.channel_slug
        (broadcast_presence env c.channel_slug (leave_active env c rest w))).channels
      ≡ w.channels
unfolding leave_active
told-channels env c rest w =
    let slug = c.channel_slug in
    let left = leave_active env c rest w in
    (publish-SameState env slug _ (broadcast_presence env slug left)).channels
    ∙ (broadcast_presence-SameState env slug left).channels
    ∙ elim (Bool-cases (any (λ d. d.user.id == c.user.id) rest)) [
      | inl e ↦ rw e refl
      | inr e ↦ rw e (attempt-SameState env _ _ w).channels
    ]

leave_end-channels :
    (env : Env) (slug : Text) (ch : LocalChannel) (rest : List Client) (w : World)
    → (leave_end env slug ch rest w).channels ≡ w.channels
unfolding leave_end
leave_end-channels env slug ch [] w = leave_timer-channels env slug ch w
leave_end-channels env slug ch (d ∷ ds) w = refl

leave_local-members :
    (c : Client) (ch : LocalChannel) (rest : List Client) (w : World)
    → clients_of (lookup c.channel_slug (leave_local c ch rest w).channels) ≡ rest
unfolding leave_local close_outbox
leave_local-members c ch [] w = ap clients_of (lookup-delete_self c.channel_slug w.channels)
leave_local-members c ch (d ∷ ds) w =
    ap clients_of (lookup-insert_self c.channel_slug (record ch { clients = d ∷ ds }) w.channels)

leave-members :
    (env : Env) (c : Client) (o : Option LocalChannel) (w : World) (k : ℕ)
    → lookup c.channel_slug w.channels ≡ o
    → has_client k (clients_of (lookup c.channel_slug (leave env c o w).channels))
      ≡ (if k == c.key then false else has_client k (clients_of o))
unfolding leave
leave-members env c none w k e = rw e (ground arith)
leave-members env c (some ch) w k e =
    let rest = without c.key ch.clients in
    ap (λ m. has_client k (clients_of (lookup c.channel_slug m)))
      (leave_end-channels env c.channel_slug ch rest _
        ∙ told-channels env c rest (leave_local c ch rest w))
    ∙ ap (has_client k) (leave_local-members c ch rest w)
    ∙ has_client-without k c.key ch.clients

-- A client that has left is in the channel no more, and every other client is in it as before.
pub unregister-members :
    (env : Env) (c : Client) (w : World) (k : ℕ)
    → has_client k (clients_of (lookup c.channel_slug (unregister env c w).channels))
      ≡ (if k == c.key then false else has_client k (clients_of (lookup c.channel_slug w.channels)))
unfolding unregister
unregister-members env c w k = leave-members env c (lookup c.channel_slug w.channels) w k refl
