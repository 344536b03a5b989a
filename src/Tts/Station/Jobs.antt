-- ===== src/Tts/Station/Jobs.antt =====
-- generated/db/tts.sql.go: the statements on `tts_jobs` and `tts_message_parts`.
use mamechat.Prelude.{
  ℕ, zero, suc, Bool, true, false, codes, ◌&&◌, Option, none, some, List, [], ◌∷◌, Text, any,
  text_eq, ◌==◌, if◌then◌else◌,
}
use mamechat.Tts.Station.{
  Status, JobRow, Part, Job, Station, Site, queued, processing, ready, failed, skipped, is_queued,
  creating_part, creating_job, marking_processing, marking_ready, marking_failed, skipping_old,
}

-- The row of a job.
unfoldable pub row_of : Text → List JobRow → Option JobRow
row_of id [] = none
row_of id (r ∷ rs) = if text_eq r.id id then some r else row_of id rs

abbrev pub has_row : Text → List JobRow → Bool
has_row id rs = any (λ r. text_eq r.id id) rs

-- `CreateTTSJob`, with whether it succeeded; a row with the identifier stays as it is.
unfoldable pub create_job : Site → Job → Station → Station × Bool
create_job site job s =
    let row : JobRow = record {
      id = job.id;
      channel_id = job.channel_id;
      message_id = job.message_id;
      content_hash = job.content_hash;
      status = queued;
      error_message = none;
    } in
    if site.fails (creating_job job.part_index)
    then (s, false)
    else if has_row job.id s.jobs
    then (s, true)
    else (record s { jobs = row ∷ s.jobs }, true)

-- `UPDATE tts_jobs SET status = ... WHERE id = $1`
unfoldable pub set_row : (JobRow → JobRow) → Text → List JobRow → List JobRow
set_row f id [] = []
set_row f id (r ∷ rs) = (if text_eq r.id id then f r else r) ∷ set_row f id rs

abbrev pub with_status : Status → JobRow → JobRow
with_status status r = record r { status = status }

abbrev pub failed_row : Text → JobRow → JobRow
failed_row reason r = record r { status = failed; error_message = some reason }

-- `MarkTTSJobProcessing`, `MarkTTSJobReady` and `MarkTTSJobFailed`, whose failures are only logged.
unfoldable pub mark_processing : Site → Text → Station → Station
mark_processing site id s =
    if site.fails (marking_processing id)
    then s
    else record s { jobs = set_row (with_status processing) id s.jobs }

unfoldable pub mark_ready : Site → Text → Station → Station
mark_ready site id s =
    if site.fails (marking_ready id)
    then s
    else record s { jobs = set_row (with_status ready) id s.jobs }

unfoldable pub mark_failed : Site → Text → Text → Station → Station
mark_failed site id reason s =
    if site.fails (marking_failed id)
    then s
    else record s { jobs = set_row (failed_row reason) id s.jobs }

-- `CreateTTSMessagePart`, whose failure is not acted on: one row for a part of a message.
unfoldable pub create_part : Site → Part → Station → Station
create_part site part s =
    if site.fails (creating_part part.part_index)
    then s
    else if any (λ p. p.message_id == part.message_id && p.part_index == part.part_index) s.parts
    then s
    else record s { parts = part ∷ s.parts }

-- The rows that count in a channel's queue.
abbrev pub waits_in : ℕ → JobRow → Bool
waits_in channel_id r = r.channel_id == channel_id && is_queued r.status

abbrev pub skipped_row : JobRow → JobRow
skipped_row r = record r { status = skipped; error_message = some (codes "queue_overflow") }

-- After the `offset` latest of the channel's waiting rows, the rest are skipped; with the messages
-- of those.
unfoldable pub skip_after : ℕ → ℕ → List JobRow → List JobRow × List ℕ
skip_after channel_id offset [] = ([], [])
skip_after channel_id zero (r ∷ rs) =
    let (rows, messages) = skip_after channel_id zero rs in
    if waits_in channel_id r
    then (skipped_row r ∷ rows, r.message_id ∷ messages)
    else (r ∷ rows, messages)
skip_after channel_id (suc offset) (r ∷ rs) =
    let (rows, messages) = skip_after channel_id offset rs in
    let (others, told) = skip_after channel_id (suc offset) rs in
    if waits_in channel_id r then (r ∷ rows, messages) else (r ∷ others, told)

-- `MarkOldQueuedTTSJobsSkipped`; none if it fails.
unfoldable pub mark_old_skipped : Site → ℕ → ℕ → Station → Station × Option (List ℕ)
unfolding skip_after
mark_old_skipped site channel_id offset s =
    let (rows, messages) = skip_after channel_id offset s.jobs in
    if site.fails skipping_old then (s, none) else (record s { jobs = rows }, some messages)
