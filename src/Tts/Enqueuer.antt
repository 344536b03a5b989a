-- ===== src/Tts/Enqueuer.antt =====
-- tts/enqueuer.go: how the parts of a message are handed to the workers (`EnqueueMessage`,
-- `skipOverflow`).
pub mod Overflow
pub mod Parts
use mamechat.Prelude.{
  ℕ, suc, ◌+◌, not, Bool, true, false, Option, none, some, List, [], ◌∷◌, Text, lookup, length,
  decimal, codes, ◌==◌, if◌then◌else◌,
}
use mamechat.Strings.{is_empty}
use mamechat.Chat.Notices.{tts_queued_message, tts_part_ready_message, tts_skipped_message}
use mamechat.Tts.Parts.{split_text}
use mamechat.Tts.Normalize.{
  RuntimeDictionaryEntry, DictionaryEntry, Regexp, normalize_text_with_dictionary,
}
use mamechat.Tts.Hash.{ResolvedSpeaker}
use mamechat.Tts.Station.{
  Asset, Part, Job, Station, Site, reading_asset, tell, touch_asset, has_audio, enqueue_job,
}
use mamechat.Tts.Station.Jobs.{create_job, create_part, mark_old_skipped}
use mamechat.Tts.Worker.{or_0}

-- The settings, and what an enqueuer asks of others: the style of a speaker, the entries of the
-- users' dictionary (none if they cannot be read), the hash of a part in a text of so many runes, and
-- a fresh identifier for a part. `static` are the entries of the dictionary of the program.
-- `max_pending` is 0 where the setting is not positive.
pub record Studio : Type 0 where
  pub enabled : Bool
  pub max_pending : ℕ
  pub resolve : Text → Option ResolvedSpeaker
  pub dictionary : List RuntimeDictionaryEntry
  pub regexp : Regexp
  pub static : List DictionaryEntry
  pub content_hash : Text → ℕ → ResolvedSpeaker → Text
  pub new_uuid : ℕ → Option Text

-- The message whose parts are enqueued.
pub record Target : Type 0 where
  pub channel_id : ℕ
  pub channel_slug : Text
  pub message_id : ℕ

-- What the parts of a message have in common: the speaker, the runes of the text, and the number of
-- parts.
pub record Plan : Type 0 where
  pub speaker : ResolvedSpeaker
  pub total_runes : ℕ
  pub part_count : ℕ

abbrev pub hash_of : Studio → Plan → Text → Text
hash_of studio plan part = studio.content_hash part plan.total_runes plan.speaker

-- A part whose sound is there is announced at once.
unfoldable pub announce_part : Site → Target → ℕ → Text → Asset → Station → Station
announce_part site target i hash a s =
    let part : Part = record {
      message_id = target.message_id;
      content_hash = hash;
      part_index = i;
    } in
    (tell site target.channel_slug
      (tts_part_ready_message site.time_format site.now (decimal target.message_id) i hash
        (or_0 a.duration_ms))
      (create_part site part (touch_asset site hash s))).0

unfoldable pub push_if : Site → Job → Station × Bool → Station × Bool
push_if site job (s, false) = (s, false)
push_if site job (s, true) = enqueue_job site job s

unfoldable pub order :
    Site → Target → Plan → ℕ → Text → Text → Option Text → Station → Station × Bool
order site target plan i part hash none s = (s, false)
order site target plan i part hash (some id) s =
    let job : Job = record {
      id = id;
      channel_id = target.channel_id;
      channel_slug = target.channel_slug;
      message_id = target.message_id;
      content_hash = hash;
      part_index = i;
      part_count = plan.part_count;
      text = part;
      speaker_id = plan.speaker.style_id;
    } in
    push_if site job (create_job site job s)

-- A part whose sound has to be made.
unfoldable pub order_part : Studio → Site → Target → Plan → ℕ → Text → Station → Station × Bool
unfolding order push_if
order_part studio site target plan i part s =
    order site target plan i part (hash_of studio plan part) (studio.new_uuid i) s

unfoldable pub place :
    Studio → Site → Target → Plan → ℕ → Text → Option Asset → Station → Station × Bool
place studio site target plan i part none s = order_part studio site target plan i part s
place studio site target plan i part (some a) s =
    if has_audio a.file_path s
    then (announce_part site target i (hash_of studio plan part) a s, true)
    else order_part studio site target plan i part s

-- The body of the loop over the parts, with whether it goes on.
unfoldable pub enqueue_part : Studio → Site → Target → Plan → ℕ → Text → Station → Station × Bool
unfolding place
enqueue_part studio site target plan i part s =
    let hash = hash_of studio plan part in
    if site.fails (reading_asset hash)
    then (s, false)
    else place studio site target plan i part (lookup hash s.assets) s

-- The loop over the parts from number `i`.
unfoldable pub enqueue_parts :
    Studio → Site → Target → Plan → ℕ → List Text → Station → Station × Bool
enqueue_parts studio site target plan i [] s = (s, true)
enqueue_parts studio site target plan i (part ∷ parts) s =
    let (s', on) = enqueue_part studio site target plan i part s in
    let rest = enqueue_parts studio site target plan (suc i) parts s' in
    if on then rest else (s', false)

-- The messages whose parts were skipped are told.
unfoldable pub tell_skipped : Site → Text → List ℕ → Station → Station
tell_skipped site slug [] s = s
tell_skipped site slug (id ∷ ids) s =
    tell_skipped site slug ids
      (tell site slug
        (tts_skipped_message site.time_format site.now (decimal id) (codes "queue_overflow")) s).0

after_skip : Site → Text → Station × Option (List ℕ) → Station
after_skip site slug (s, none) = s
after_skip site slug (s, some ids) = tell_skipped site slug ids s

-- `skipOverflow`
unfoldable pub skip_overflow : Studio → Site → Target → Station → Station
unfolding after_skip
skip_overflow studio site target s =
    if studio.max_pending == 0
    then s
    else after_skip site target.channel_slug
        (mark_old_skipped site target.channel_id studio.max_pending s)

with_overflow : Studio → Site → Target → Station × Bool → Station × Bool
with_overflow studio site target (s, false) = (s, false)
with_overflow studio site target (s, true) = (skip_overflow studio site target s, true)

skipped_for : Site → Target → Text → Station → Station × Bool
skipped_for site target reason s =
    tell site target.channel_slug
      (tts_skipped_message site.time_format site.now (decimal target.message_id) reason) s

-- The text has parts.
enqueue_split : Studio → Site → Target → ResolvedSpeaker → ℕ → List Text → Station → Station × Bool
enqueue_split studio site target speaker total parts s =
    let plan : Plan = record {
      speaker = speaker;
      total_runes = total;
      part_count = length parts;
    } in
    with_overflow studio site target (
      enqueue_parts studio site target plan 0 parts
        (tell site target.channel_slug
          (tts_queued_message site.time_format site.now (decimal target.message_id) (length parts))
          s).0)

enqueue_read : Studio → Site → Target → ResolvedSpeaker → Text × Bool → Station → Station × Bool
enqueue_read studio site target speaker (text, false) s =
    skipped_for site target (codes "text_not_readable") s
enqueue_read studio site target speaker (text, true) s = elim (split_text text) [
  | [] ↦ skipped_for site target (codes "empty") s
  | p ∷ ps ↦ enqueue_split studio site target speaker (length text) (p ∷ ps) s
]

enqueue_spoken : Studio → Site → Target → Option ResolvedSpeaker → Text → Station → Station × Bool
enqueue_spoken studio site target none body s = (s, false)
enqueue_spoken studio site target (some speaker) body s =
    enqueue_read studio site target speaker
      (normalize_text_with_dictionary studio.regexp studio.static studio.dictionary body) s

-- `EnqueueMessage`, with whether it returns no error.
unfoldable pub enqueue_message : Studio → Site → Target → Text → Text → Station → Station × Bool
unfolding enqueue_spoken enqueue_read enqueue_split skipped_for with_overflow
enqueue_message studio site target speaker_uuid body s =
    if not studio.enabled
    then (s, true)
    else if is_empty speaker_uuid
    then (s, true)
    else enqueue_spoken studio site target (studio.resolve speaker_uuid) body s
