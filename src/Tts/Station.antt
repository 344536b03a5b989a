-- ===== src/Tts/Station.antt =====
-- backend/internal/tts: the state that the enqueuers, the workers and the collector share. It is
-- the tables of generated/db/tts.sql.go, the queue and the locks of tts/queue.go, the audio files,
-- and what was published, the latest first. The voice parameters and the times of a job, which no
-- modelled code reads, are left out.
pub mod Jobs
pub mod Sounds
pub mod Statuses
pub mod Fifo
pub mod Overflow
use mamechat.Prelude.{
  ℕ, suc, ◌+◌, Bool, true, false, Option, none, some, List, [], ◌∷◌, ◌++◌, Text, ℤ, ltb, text_eq,
  lookup, insert, delete, take, drop, codes, if◌then◌else◌,
}
use mamechat.Chat.Time.{Time, Duration, TimeFormat}
use mamechat.Chat.Message.{ServerMessage}

-- `tts_jobs.status`
pub data Status : Type 0 where
  queued processing ready failed skipped : Status

abbrev pub is_queued : Status → Bool
is_queued queued = true
is_queued processing = false
is_queued ready = false
is_queued failed = false
is_queued skipped = false

-- A row of `tts_jobs`. Every insertion of the backend gives it the priority 0.
pub record JobRow : Type 0 where
  pub id : Text
  pub channel_id : ℕ
  pub message_id : ℕ
  pub content_hash : Text
  pub status : Status
  pub error_message : Option Text

-- A row of `tts_assets` without its key, the content hash.
pub record Asset : Type 0 where
  pub file_path : Text
  pub duration_ms : Option ℤ
  pub use_count : ℕ
  pub last_used_at : Time
  pub marked_for_delete_at : Option Time

-- A row of `tts_message_parts`.
pub record Part : Type 0 where
  pub message_id : ℕ
  pub content_hash : Text
  pub part_index : ℕ

-- `Job`, as it stands in the queue.
pub record Job : Type 0 where
  pub id : Text
  pub channel_id : ℕ
  pub channel_slug : Text
  pub message_id : ℕ
  pub content_hash : Text
  pub part_index : ℕ
  pub part_count : ℕ
  pub text : Text
  pub speaker_id : ℕ

-- `jobs` lists the rows of the table the latest first, `queue` the entries of the list in Valkey
-- from its head, `locks` the owner and the end of each lock, and `files` the sizes.
pub record Station : Type 0 where
  pub jobs : List JobRow
  pub assets : List (Text × Asset)
  pub parts : List Part
  pub queue : List Text
  pub locks : List (Text × (Text × Time))
  pub files : List (Text × ℕ)
  pub told : List (Text × ServerMessage)

-- The calls that can fail, apart by what they are about.
pub data Call : Type 0 where
  publishing listing_candidates skipping_old locking : Call
  reading_asset touching_asset storing_asset marking_asset deleting_asset : Text → Call
  reading_status marking_processing marking_ready marking_failed : Text → Call
  removing_file : Text → Call
  creating_part creating_job pushing : ℕ → Call
  popping replying : Call

-- What an operation finds around it: the clock and the calls that fail. `synthesize` is what
-- VOICEVOX makes of a job, `convert` the size of the file that ffmpeg makes of a sound; `marshal_job` and
-- `unmarshal_job` are `json.Marshal` and `json.Unmarshal` at `Job`.
pub record Site : Type 0 where
  pub now : Time
  pub time_format : TimeFormat
  pub fails : Call → Bool
  pub synthesize : Job → Option (List ℕ)
  pub convert : List ℕ → Option ℕ
  pub storage_dir : Text
  pub marshal_job : Job → Option Text
  pub unmarshal_job : Text → Option Job

-- `Bus.Publish`, with whether it succeeded.
unfoldable pub tell : Site → Text → ServerMessage → Station → Station × Bool
tell site slug msg s =
    if site.fails publishing then (s, false) else (record s { told = (slug, msg) ∷ s.told }, true)

touched_asset : Time → Text → Option Asset → List (Text × Asset) → List (Text × Asset)
touched_asset now hash none assets = assets
touched_asset now hash (some a) assets =
    insert hash (record a { use_count = a.use_count + 1; last_used_at = now }) assets

-- `TouchTTSAsset`, whose failure is only logged.
unfoldable pub touch_asset : Site → Text → Station → Station
unfolding touched_asset
touch_asset site hash s =
    if site.fails (touching_asset hash)
    then s
    else record s { assets = touched_asset site.now hash (lookup hash s.assets) s.assets }

used_before : Option Asset → ℕ
used_before none = 0
used_before (some a) = a.use_count

abbrev stored_asset : Time → Text → Option Asset → Asset
stored_asset now path old = record {
  file_path = path;
  duration_ms = none;
  use_count = used_before old + 1;
  last_used_at = now;
  marked_for_delete_at = none;
}

-- `UpsertTTSAsset`, the row that it returns; none if it fails.
unfoldable pub upsert_asset : Site → Text → Text → Station → Station × Option Asset
unfolding used_before
upsert_asset site hash path s =
    let a = stored_asset site.now path (lookup hash s.assets) in
    if site.fails (storing_asset hash)
    then (s, none)
    else (record s { assets = insert hash a s.assets }, some a)

size_above_zero : Option ℕ → Bool
size_above_zero none = false
size_above_zero (some n) = ltb 0 n

-- `os.Stat`: the file is there and is not empty.
unfoldable pub has_audio : Text → Station → Bool
unfolding size_above_zero
has_audio path s = size_above_zero (lookup path s.files)

-- `filepath.Join(storageDir, contentHash[0:2], contentHash[2:4], contentHash+".m4a")`, for a hash
-- in hexadecimal and a directory in its shortest form.
unfoldable pub audio_path : Text → Text → Text
audio_path dir hash =
    dir
    ++ (codes "/"
        ++ (take 2 hash
            ++ (codes "/" ++ (take 2 (drop 2 hash) ++ (codes "/" ++ (hash ++ codes ".m4a"))))))

lock_held : Time → Option (Text × Time) → Bool
lock_held now none = false
lock_held now (some (job, end)) = ltb now end

-- `AcquireLock`: `SET NX` with a time to live; none if the call fails.
unfoldable pub acquire_lock : Site → Text → Text → Duration → Station → Station × Option Bool
unfolding lock_held
acquire_lock site hash job ttl s =
    if site.fails locking
    then (s, none)
    else if lock_held site.now (lookup hash s.locks)
    then (s, some false)
    else (record s { locks = insert hash (job, site.now + ttl) s.locks }, some true)

-- `LPUSH` of a payload, with whether it succeeded.
unfoldable pub push_payload : Site → Job → Option Text → Station → Station × Bool
push_payload site job none s = (s, false)
push_payload site job (some payload) s =
    if site.fails (pushing job.part_index)
    then (s, false)
    else (record s { queue = payload ∷ s.queue }, true)

-- `Enqueue`, with whether it succeeded.
unfoldable pub enqueue_job : Site → Job → Station → Station × Bool
unfolding push_payload
enqueue_job site job s = push_payload site job (site.marshal_job job) s

last_entry : List Text → Option (List Text × Text)
last_entry [] = none
last_entry (j ∷ js) = elim (last_entry js) [
  | none ↦ some ([], j)
  | some (rest, last) ↦ some (j ∷ rest, last)
]

-- What `Dequeue` returns: a job, nothing within the time, or an error.
pub data Dequeued : Type 0 where
  took : Job → Dequeued
  nothing unavailable unreadable : Dequeued

read_payload : Option Job → Dequeued
read_payload none = unreadable
read_payload (some job) = took job

-- The entry is gone from the queue also where the reply is malformed or the payload no job.
dequeued : Site → Option (List Text × Text) → Station → Station × Dequeued
dequeued site none s = (s, nothing)
dequeued site (some (rest, payload)) s =
    let taken = record s { queue = rest } in
    if site.fails replying
    then (taken, unreadable)
    else (taken, read_payload (site.unmarshal_job payload))

-- `Dequeue`: `BRPOP`, which may fail.
unfoldable pub dequeue : Site → Station → Station × Dequeued
unfolding last_entry read_payload dequeued
dequeue site s =
    if site.fails popping then (s, unavailable) else dequeued site (last_entry s.queue) s
