-- ===== src/Tts/Worker.antt =====
-- tts/worker.go: how a worker makes the sound of one job (`process`). Between two looks for the
-- sound of another worker, the others act; `Round` is what one look finds.
pub mod Waiting
pub mod Settling
use mamechat.Prelude.{
  ℕ, zero, suc, ◌+◌, ◌*◌, delete, Bool, true, false, Option, none, some, List, [], ◌∷◌, Text, ℤ,
  pos, ltb, lookup, insert, decimal, codes, if◌then◌else◌,
}
use mamechat.Chat.Time.{Time, Duration, second}
use mamechat.Chat.Message.{ServerMessage}
use mamechat.Chat.Notices.{tts_part_ready_message, tts_error_message}
use mamechat.Tts.Station.{
  JobRow, Asset, Part, Job, Status, Station, Site, is_queued, reading_status, reading_asset, tell,
  touch_asset, upsert_asset, has_audio, audio_path, acquire_lock,
}
use mamechat.Tts.Station.Jobs.{row_of, create_part, mark_processing, mark_ready, mark_failed}

usable_asset : Site → Text → Option Asset → Station → Station × Option Asset
usable_asset site hash none s = (s, none)
usable_asset site hash (some a) s =
    if has_audio a.file_path s then (touch_asset site hash s, some a) else (s, none)

-- `cachedAsset`
unfoldable pub cached_asset : Site → Text → Station → Station × Option Asset
unfolding usable_asset
cached_asset site hash s =
    if site.fails (reading_asset hash)
    then (s, none)
    else usable_asset site hash (lookup hash s.assets) s

-- `asset.DurationMs.Int32`
abbrev pub or_0 : Option ℤ → ℤ
or_0 none = pos 0
or_0 (some n) = n

abbrev pub part_of : Job → Part
part_of job = record {
  message_id = job.message_id;
  content_hash = job.content_hash;
  part_index = job.part_index;
}

-- What tells that the sound of a part is there.
abbrev pub part_ready_message : Site → Job → Asset → ServerMessage
part_ready_message site job a =
    tts_part_ready_message site.time_format site.now (decimal job.message_id) job.part_index
      job.content_hash (or_0 a.duration_ms)

-- `markPartReady`
unfoldable pub mark_part_ready : Site → Job → Asset → Station → Station
mark_part_ready site job a s =
    (tell site job.channel_slug (part_ready_message site job a)
      (mark_ready site job.id (create_part site (part_of job) s))).0

-- `fail`
unfoldable pub fail : Site → Job → Text → Station → Station
fail site job reason s =
    (tell site job.channel_slug
      (tts_error_message site.time_format site.now (decimal job.message_id) reason)
      (mark_failed site job.id reason s)).0

-- One look for the sound: the clock before it, whether the context is done after it, and what the
-- others do in the half second until the next.
pub record Round : Type 0 where
  pub clock : Time
  pub over : Bool
  pub site : Site
  pub meanwhile : Station → Station

pub data Waited : Type 0 where
  appeared : Asset → Waited
  timed_out cancelled : Waited

-- `waitCachedAsset` from its look number `k`; none where the fuel runs out.
unfoldable pub wait_cached_asset :
    ℕ → (ℕ → Round) → Time → Text → ℕ → Station → Option (Station × Waited)
wait_cached_asset zero rounds deadline hash k s = none
wait_cached_asset (suc fuel) rounds deadline hash k s =
    let round = rounds k in
    let (s', found) = cached_asset round.site hash s in
    let again = wait_cached_asset fuel rounds deadline hash (suc k) (round.meanwhile s') in
    if ltb round.clock deadline
    then (elim found [
      | none ↦ if round.over then some (s', cancelled) else again
      | some a ↦ some (s', appeared a)
    ])
    else some (s, timed_out)

abbrev pub wait_timeout : Duration
wait_timeout = 12 * second

abbrev pub lock_ttl : Duration
lock_ttl = 60 * second

-- Twelve seconds of looks half a second apart, and the look that finds the time over.
abbrev pub wait_fuel : ℕ
wait_fuel = 25

after_wait : Site → Job → Option (Station × Waited) → Option Station
after_wait site job none = none
after_wait site job (some (s, appeared a)) = some (mark_part_ready site job a s)
after_wait site job (some (s, timed_out)) =
    some (fail site job (codes "duplicate_generation_timeout") s)
after_wait site job (some (s, cancelled)) =
    some (fail site job (codes "duplicate_generation_timeout") s)

after_upsert : Site → Job → Station × Option Asset → Station
after_upsert site job (s, none) = fail site job (codes "db_update_failed") s
after_upsert site job (s, some a) = mark_part_ready site job a s

-- `convertAndSave` with the size of the file that ffmpeg made; an empty one is removed.
after_convert : Site → Job → Option ℕ → Station → Station
after_convert site job none s = fail site job (codes "ffmpeg_failed") s
after_convert site job (some zero) s =
    fail site job (codes "ffmpeg_failed")
      (record s { files = delete (audio_path site.storage_dir job.content_hash) s.files })
after_convert site job (some (suc n)) s =
    let path = audio_path site.storage_dir job.content_hash in
    after_upsert site job
      (upsert_asset site job.content_hash path (record s { files = insert path (suc n) s.files }))

after_synthesis : Site → Job → Option (List ℕ) → Station → Station
after_synthesis site job none s = fail site job (codes "synthesis_failed") s
after_synthesis site job (some wav) s = after_convert site job (site.convert wav) s

after_lock : Site → (ℕ → Round) → Job → Station × Option Bool → Option Station
after_lock site rounds job (s, none) = some (fail site job (codes "lock_failed") s)
after_lock site rounds job (s, some true) = some (after_synthesis site job (site.synthesize job) s)
after_lock site rounds job (s, some false) =
    after_wait site job
      (wait_cached_asset wait_fuel rounds (site.now + wait_timeout) job.content_hash 0 s)

after_cache : Site → (ℕ → Round) → Job → Station × Option Asset → Option Station
after_cache site rounds job (s, some a) = some (mark_part_ready site job a s)
after_cache site rounds job (s, none) =
    after_lock site rounds job (acquire_lock site job.content_hash job.id lock_ttl s)

-- The job is queued.
unfoldable pub perform_job : Site → (ℕ → Round) → Job → Station → Option Station
unfolding after_cache after_lock after_wait after_synthesis after_convert after_upsert
perform_job site rounds job s =
    after_cache site rounds job (cached_asset site job.content_hash (mark_processing site job.id s))

after_status : Site → (ℕ → Round) → Job → Option JobRow → Station → Option Station
after_status site rounds job none s = some s
after_status site rounds job (some row) s =
    if is_queued row.status then perform_job site rounds job s else some s

-- `process`; none where the fuel of the wait runs out.
unfoldable pub process : Site → (ℕ → Round) → Job → Station → Option Station
unfolding after_status
process site rounds job s =
    if site.fails (reading_status job.id)
    then some (fail site job (codes "db_status_failed") s)
    else after_status site rounds job (row_of job.id s.jobs) s
