-- ===== src/Http/Manager/Hours.antt =====
-- httpserver/routes.go: what the requests on opening hours ask of the hub.
use mamechat.Prelude.{
  ◌≤◌, ◌≡◌, refl, inl, inr, Bool, true, false, Option, none, some, Text, ℤ, pos, negsuc, is_some,
  arith, Bool-cases,
}
use mamechat.Chat.User.{UserSnapshot}
use mamechat.Chat.Hub.{World, Env}
use mamechat.Chat.Requests.{
  Answer, done, not_operating, failed, Request, perform, open_unlimited, extend_by, set_duration_to,
}
use mamechat.Store.{ChannelRow}
use mamechat.Http.{Response}
use mamechat.Http.Manager.{
  ManagerRequest, start_operating, extend_operating, set_operating_duration, open_channel,
  allowed_minutes, allowed_operating_minutes, allowed_extend_minutes, minutes_of_day, minutes,
  set_suspend_retention, set_suspend_grace, suspend_now, opened, changed, start, extend,
  set_duration, managed, through, handle_manager,
}
use mamechat.Http.Manager.Gates.{require_channel_manager-cases}

-- The durations that a manager may ask for: from a minute to a day.
abbrev pub IsBounded : Request → Type 0
IsBounded (Request.start d) = (minutes 1 ≤ d) × (d ≤ minutes 1440)
IsBounded open_unlimited = Unit
IsBounded (set_duration_to d) = (minutes 1 ≤ d) × (d ≤ minutes 1440)
IsBounded (extend_by d) = (minutes 1 ≤ d) × (d ≤ minutes 1440)
IsBounded (Request.set_unlimited b) = Unit

-- The requests that open a channel or move its closing time.
abbrev pub on_hours : ManagerRequest → Bool
on_hours (start_operating b) = true
on_hours (extend_operating b) = true
on_hours (set_operating_duration b) = true
on_hours open_channel = true
on_hours _ = false

-- What the hub is to be asked for: to open the channel, or to move its closing time, by the minutes
-- of the body.
abbrev pub asked_of_hub : ManagerRequest → Option Request
asked_of_hub (start_operating (some (pos n))) = some (Request.start (minutes n))
asked_of_hub (extend_operating (some (pos n))) = some (extend_by (minutes n))
asked_of_hub (set_operating_duration (some (pos n))) = some (set_duration_to (minutes n))
asked_of_hub open_channel = some open_unlimited
asked_of_hub _ = none

-- A success stands for what the request asks of the hub, which the hub has performed.
abbrev pub Performed : Env → Text → ManagerRequest → World → World × Response → Type 0
Performed env slug asked w result =
    (request : Request) × (asked_of_hub asked ≡ some request)
    × ((perform env slug request w).1 ≡ done)
    × (result.0.table ≡ (perform env slug request w).0.table)
    × IsBounded request

opened-done :
    (slug failure : Text) (told : Bool) (p : World × Answer)
    → (opened slug told failure p).1.status ≡ 200
    → (p.1 ≡ done) × ((opened slug told failure p).0.table ≡ p.0.table)
unfolding opened
opened-done slug failure told (w, done) h = (refl, ground arith)
opened-done slug failure told (w, not_operating) h = absurd (omega arith)
opened-done slug failure told (w, failed) h = absurd (omega arith)

changed-done :
    (slug failure : Text) (told : Bool) (p : World × Answer)
    → (changed slug told failure p).1.status ≡ 200
    → (p.1 ≡ done) × ((changed slug told failure p).0.table ≡ p.0.table)
unfolding changed
changed-done slug failure told (w, done) h = (refl, ground arith)
changed-done slug failure told (w, not_operating) h = absurd (omega arith)
changed-done slug failure told (w, failed) h = absurd (omega arith)

start-Performed :
    (env : Env) (slug : Text) (n : ℤ) (w : World)
    → (start env slug (allowed_minutes allowed_operating_minutes n) w).1.status ≡ 200
    → Performed env slug
        (start_operating (some n))
        w
        (start env slug (allowed_minutes allowed_operating_minutes n) w)
unfolding start
start-Performed env slug (negsuc n) w = λ h. absurd (omega arith)
start-Performed env slug (pos n) w = elim (Bool-cases (allowed_operating_minutes n)) [
  | inr e ↦ rw e (λ h. absurd (omega arith))
  | inl e ↦ rw e (λ h.
      let (d, t) = opened-done slug _ true _ h in
      (Request.start (minutes n), refl, d, t, (ground arith, ground arith)))
]

extend-Performed :
    (env : Env) (slug : Text) (n : ℤ) (w : World)
    → (extend env slug (allowed_minutes allowed_extend_minutes n) w).1.status ≡ 200
    → Performed env slug
        (extend_operating (some n))
        w
        (extend env slug (allowed_minutes allowed_extend_minutes n) w)
unfolding extend
extend-Performed env slug (negsuc n) w = λ h. absurd (omega arith)
extend-Performed env slug (pos n) w = elim (Bool-cases (allowed_extend_minutes n)) [
  | inr e ↦ rw e (λ h. absurd (omega arith))
  | inl e ↦ rw e (λ h.
      let (d, t) = changed-done slug _ false _ h in
      (extend_by (minutes n), refl, d, t, (ground arith, ground arith)))
]

set_duration-Performed :
    (env : Env) (slug : Text) (closed : Bool) (n : ℤ) (w : World)
    → (set_duration env slug closed (allowed_minutes minutes_of_day n) w).1.status ≡ 200
    → Performed env slug
        (set_operating_duration (some n))
        w
        (set_duration env slug closed (allowed_minutes minutes_of_day n) w)
unfolding set_duration
set_duration-Performed env slug closed (negsuc n) w = λ h. absurd (omega arith)
set_duration-Performed env slug closed (pos n) w = elim (Bool-cases (minutes_of_day n)) [
  | inr e ↦ rw e (λ h. absurd (omega arith))
  | inl e ↦ rw e (λ h.
      let (d, t) = changed-done slug _ closed _ h in
      (set_duration_to (minutes n), refl, d, t, (ground arith, ground arith)))
]

managed-Performed :
    (env : Env) (slug : Text) (row : ChannelRow) (request : ManagerRequest) (w : World)
    → on_hours request ≡ true
    → (managed env slug row request w).1.status ≡ 200
    → Performed env slug request w (managed env slug row request w)
unfolding managed
managed-Performed env slug row (start_operating none) w o h = absurd (omega arith)
managed-Performed env slug row (start_operating (some n)) w o h = start-Performed env slug n w h
managed-Performed env slug row (extend_operating none) w o h = absurd (omega arith)
managed-Performed env slug row (extend_operating (some n)) w o h = extend-Performed env slug n w h
managed-Performed env slug row (set_operating_duration none) w o h = absurd (omega arith)
managed-Performed env slug row (set_operating_duration (some n)) w o h =
    set_duration-Performed env slug (is_some row.suspended_at) n w h
managed-Performed env slug row open_channel w o h =
    let (d, t) = opened-done slug _ true _ h in (open_unlimited, refl, d, t, tt)
managed-Performed env slug row (set_suspend_retention b) w o h = absurd (ground arith)
managed-Performed env slug row (set_suspend_grace b) w o h = absurd (ground arith)
managed-Performed env slug row suspend_now w o h = absurd (ground arith)

-- A request to open a channel or to move its closing time that is answered with success has been
-- performed by the hub without an error: the hub has started the opening hours, extended them, set
-- what is left of them or opened the channel without a limit, as was asked, for the minutes that were
-- asked for, which are between a minute and a day; the table is what the hub has made of it.
pub handle_manager-Performed :
    (env : Env) (session : Option UserSnapshot) (slug : Text) (request : ManagerRequest) (w : World)
    → on_hours request ≡ true
    → (handle_manager env session slug request w).1.status ≡ 200
    → Performed env slug request w (handle_manager env session slug request w)
unfolding handle_manager
handle_manager-Performed env session slug request w o =
    elim (require_channel_manager-cases env session slug w) [
      | inl (response, e, bad) ↦
          rw (e, through) (λ (h : response.status ≡ 200). absurd (omega arith))
      | inr (row, e, m) ↦ rw (e, through) (managed-Performed env slug row request w o)
    ]
