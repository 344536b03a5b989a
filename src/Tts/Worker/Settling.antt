-- ===== src/Tts/Worker/Settling.antt =====
-- tts/worker.go: how a job ends.
use mamechat.Prelude.{
  ℕ, zero, suc, ◌+◌, ◌≤◌, ◌≡◌, refl, ap, ◌∙◌, subst, ltb, Bool, true, false, Option, none, some,
  List, Text, lookup, lookup-insert_self, Bool-cases, Option-cases, inl, inr, ◌⊎◌,
}
use mamechat.Tts.Station.{
  JobRow, Asset, Job, Station, Site, ready, failed, marking_ready, marking_failed, reading_status,
  reading_asset, has_audio, audio_path, acquire_lock, is_queued,
}
use mamechat.Tts.Station.Jobs.{row_of, mark_processing}
use mamechat.Tts.Station.Sounds.{
  Audible, touch_asset-Audible, upsert_asset-Audible, Audible-tell, create_part-Audible,
  mark_ready-Audible,
}
use mamechat.Tts.Station.Statuses.{
  HasStatus, HasStatus-tell, mark_ready-HasStatus, mark_failed-HasStatus,
}
use mamechat.Tts.Worker.{
  Round, Waited, appeared, timed_out, cancelled, mark_part_ready, fail, part_of, cached_asset,
  usable_asset, wait_cached_asset, wait_fuel, wait_timeout, lock_ttl, after_wait, after_lock,
  after_cache, after_upsert, after_convert, after_synthesis, perform_job, after_status, process,
}
use mamechat.Tts.Worker.Waiting.{IsPaced, wait_ends}

cached_asset-Audible :
    (site : Site) (hash : Text) (s : Station) {a : Asset}
    → (cached_asset site hash s).1 ≡ some a
    → Audible hash (cached_asset site hash s).0
unfolding cached_asset
cached_asset-Audible site hash s {a} = elim (Bool-cases (site.fails (reading_asset hash))) [
  | inl f ↦ rw f (λ (e : none ≡ some a). cc)
  | inr f ↦ elim (Option-cases (lookup hash s.assets)) [
    | inl n ↦ rw (f, n, usable_asset) (λ (e : none ≡ some a). cc)
    | inr (b, found) ↦ elim (Bool-cases (has_audio b.file_path s)) [
      | inr silent ↦ rw (f, found, usable_asset, silent) (λ (e : none ≡ some a). cc)
      | inl loud ↦
          rw (f, found, usable_asset, loud) (λ e. touch_asset-Audible site hash b s found loud)
    ]
  ]
]

wait_cached_asset-Audible :
    (fuel : ℕ) (rounds : ℕ → Round) (deadline : ℕ) (hash : Text) (k : ℕ) (s : Station) {t : Station}
    {a : Asset}
    → wait_cached_asset fuel rounds deadline hash k s ≡ some (t, appeared a)
    → Audible hash t
unfolding wait_cached_asset
wait_cached_asset-Audible zero rounds deadline hash k s = λ e. cc
wait_cached_asset-Audible (suc fuel) rounds deadline hash k s {t} {a} =
    let s' = (cached_asset (rounds k).site hash s).0 in
    elim (Bool-cases (ltb (rounds k).clock deadline)) [
      | inr late ↦ rw late (λ (e : some (s, timed_out) ≡ some (t, appeared a)). cc)
      | inl early ↦ rw early (elim (Option-cases (cached_asset (rounds k).site hash s).1) [
        | inr (b, found) ↦ rw found (λ (e : some (s', appeared b) ≡ some (t, appeared a)).
            let same : s' ≡ t = cc e in
            subst (Audible hash) same (cached_asset-Audible (rounds k).site hash s found))
        | inl absent ↦ rw absent (elim (Bool-cases (rounds k).over) [
          | inl over ↦ rw over (λ (e : some (s', cancelled) ≡ some (t, appeared a)). cc)
          | inr on ↦ rw on (
              wait_cached_asset-Audible fuel rounds deadline hash (suc k) ((rounds k).meanwhile s'))
        ])
      ])
    ]

-- A job whose status can be written.
abbrev pub Writable : Site → Job → Type 0
Writable site job =
    (site.fails (marking_ready job.id) ≡ false) × (site.fails (marking_failed job.id) ≡ false)

-- The job is ready and its sound can be heard, or it has failed.
abbrev pub Ends : Job → Station → Type 0
Ends job t = (HasStatus ready job.id t × Audible job.content_hash t) ⊎ HasStatus failed job.id t

mark_part_ready-Ends :
    (site : Site) (job : Job) (a : Asset) (s : Station)
    → Writable site job
    → Audible job.content_hash s
    → Ends job (mark_part_ready site job a s)
unfolding mark_part_ready
mark_part_ready-Ends site job a s w h = inl (
  HasStatus-tell site job.channel_slug _ ready job.id _ (mark_ready-HasStatus site job.id _ w.0),
  Audible-tell site job.channel_slug _ job.content_hash _ (
      mark_ready-Audible site job.id job.content_hash _
        (create_part-Audible site (part_of job) job.content_hash s h)),
)

fail-Ends :
    (site : Site) (job : Job) (reason : Text) (s : Station)
    → Writable site job
    → Ends job (fail site job reason s)
unfolding fail
fail-Ends site job reason s w = inr (
    HasStatus-tell site job.channel_slug _ failed job.id _
      (mark_failed-HasStatus site job.id reason s w.1))

after_wait-Ends :
    (site : Site) (job : Job) (r : Station × Waited)
    → Writable site job
    → ((a : Asset) → r.1 ≡ appeared a → Audible job.content_hash r.0)
    → (t : Station) × (after_wait site job (some r) ≡ some t) × Ends job t
unfolding after_wait
after_wait-Ends site job (s, appeared a) w h =
    (_, refl, mark_part_ready-Ends site job a s w (h a refl))
after_wait-Ends site job (s, timed_out) w h = (_, refl, fail-Ends site job _ s w)
after_wait-Ends site job (s, cancelled) w h = (_, refl, fail-Ends site job _ s w)

after_upsert-Ends :
    (site : Site) (job : Job) (p : Station × Option Asset)
    → Writable site job
    → ((a : Asset) → p.1 ≡ some a → Audible job.content_hash p.0)
    → Ends job (after_upsert site job p)
unfolding after_upsert
after_upsert-Ends site job (s, none) w h = fail-Ends site job _ s w
after_upsert-Ends site job (s, some a) w h = mark_part_ready-Ends site job a s w (h a refl)

after_convert-Ends :
    (site : Site) (job : Job) (o : Option ℕ) (s : Station)
    → Writable site job
    → Ends job (after_convert site job o s)
unfolding after_convert
after_convert-Ends site job none s w = fail-Ends site job _ s w
after_convert-Ends site job (some zero) s w = fail-Ends site job _ _ w
after_convert-Ends site job (some (suc n)) s w = after_upsert-Ends site job _ w (λ a.
    upsert_asset-Audible site job.content_hash _ n _
      (lookup-insert_self (audio_path site.storage_dir job.content_hash) (suc n) s.files))

after_synthesis-Ends :
    (site : Site) (job : Job) (o : Option (List ℕ)) (s : Station)
    → Writable site job
    → Ends job (after_synthesis site job o s)
unfolding after_synthesis
after_synthesis-Ends site job none s w = fail-Ends site job _ s w
after_synthesis-Ends site job (some wav) s w = after_convert-Ends site job (site.convert wav) s w

-- The looks of a worker that has to wait: in step, and not before it began.
abbrev pub IsTimed : Site → (ℕ → Round) → Type 0
IsTimed site rounds = IsPaced rounds × (site.now ≤ (rounds 0).clock)

after_lock-Ends :
    (site : Site) (rounds : ℕ → Round) (job : Job) (p : Station × Option Bool)
    → Writable site job
    → IsTimed site rounds
    → (t : Station) × (after_lock site rounds job p ≡ some t) × Ends job t
unfolding after_lock
after_lock-Ends site rounds job (s, none) w h = (_, refl, fail-Ends site job _ s w)
after_lock-Ends site rounds job (s, some true) w h =
    (_, refl, after_synthesis-Ends site job (site.synthesize job) s w)
after_lock-Ends site rounds job (s, some false) w (paced, begun) =
    let (r, e) = wait_ends rounds site.now job.content_hash s paced begun in
    rw e (
      after_wait-Ends site job r w (λ a q.
        wait_cached_asset-Audible wait_fuel rounds (site.now + wait_timeout) job.content_hash 0 s
          (e ∙ ap (λ x. some (r.0, x)) q)))

after_cache-Ends :
    (site : Site) (rounds : ℕ → Round) (job : Job) (p : Station × Option Asset)
    → Writable site job
    → IsTimed site rounds
    → ((a : Asset) → p.1 ≡ some a → Audible job.content_hash p.0)
    → (t : Station) × (after_cache site rounds job p ≡ some t) × Ends job t
unfolding after_cache
after_cache-Ends site rounds job (s, some a) w h c =
    (_, refl, mark_part_ready-Ends site job a s w (c a refl))
after_cache-Ends site rounds job (s, none) w h c =
    after_lock-Ends site rounds job (acquire_lock site job.content_hash job.id lock_ttl s) w h

-- A queued job whose status can be read and written is brought to an end by a worker whose looks
-- are at least half a second apart: the job is ready and its sound is stored in a file that is not
-- empty, or the job has failed. (The row of the job may be gone by then.)
pub process-Ends :
    (site : Site) (rounds : ℕ → Round) (job : Job) (s : Station) (row : JobRow)
    → row_of job.id s.jobs ≡ some row
    → is_queued row.status ≡ true
    → site.fails (reading_status job.id) ≡ false
    → Writable site job
    → IsTimed site rounds
    → (t : Station) × (process site rounds job s ≡ some t) × Ends job t
unfolding process perform_job
process-Ends site rounds job s row found waits readable w h =
    rw (readable, found, after_status, waits, perform_job)
      (after_cache-Ends site rounds job _ w h
        (λ a. cached_asset-Audible site job.content_hash (mark_processing site job.id s)))
