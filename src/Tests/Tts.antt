-- ===== src/Tests/Tts.antt =====
-- The theorems on reading messages aloud, at a message of two sentences.
use mamechat.Prelude.{
  suc, ◌-◌, map, if◌then◌else◌, Option, ℕ, ◌+◌, ◌*◌, ◌≡◌, refl, true, false, not, none, some, List,
  [], ◌∷◌, ◌++◌, ◌==◌, Text, codes, keep, take, All, arith,
}
use mamechat.Strings.Solid.{solid}
use mamechat.Tts.Parts.{split_text}
use mamechat.Tts.Parts.Bounds.{IsShort, split_text-IsShort}
use mamechat.Tts.Parts.Content.{spoken, spoken-split_text}
use mamechat.Tts.Hash.{ResolvedSpeaker}
use mamechat.Tts.Normalize.{Regexp}
use mamechat.Tts.Station.{JobRow, Job, Station, Site, queued}
use mamechat.Tts.Station.Jobs.{row_of}
use mamechat.Tts.Station.Fifo.{
  IsFaithful, QueueEvent, push, pop, run, accepted, served, waiting, fifo,
}
use mamechat.Tts.Station.Overflow.{waiting_in}
use mamechat.Tts.Worker.{Round, Waited, wait_cached_asset, wait_fuel, wait_timeout, process}
use mamechat.Tts.Worker.Waiting.{IsPaced, half_second, wait_ends}
use mamechat.Tts.Worker.Settling.{Ends, process-Ends}
use mamechat.Tts.Enqueuer.{Studio, Target, Plan, skip_overflow}
use mamechat.Tts.Enqueuer.Overflow.{skip_overflow_lem}
use mamechat.Tests.{noon, plain_format, slug}

-- A text with an end, in front of others, and what reads it.
abbrev put : Text → Text → Text
put [] rest = 0 ∷ rest
put (c ∷ s) rest = suc c ∷ put s rest

abbrev get : Text → Text × Text
get [] = ([], [])
get (c ∷ rest) = let (s, t) = get rest in if c == 0 then ([], rest) else ((c - 1) ∷ s, t)

get-put : (s rest : Text) → get (put s rest) ≡ (s, rest)
get-put [] rest = refl
get-put (c ∷ s) rest = rw (get-put s rest) (ground arith)

-- A job as five numbers and four texts.
abbrev encode : Job → Text
encode j =
    j.channel_id
    ∷ j.message_id
    ∷ j.part_index
    ∷ j.part_count
    ∷ j.speaker_id
    ∷ put j.id (put j.channel_slug (put j.content_hash (put j.text [])))

abbrev decode : Text → Option Job
decode (channel ∷ message ∷ index ∷ count ∷ speaker ∷ rest) =
    let id = get rest in
    let slug = get id.1 in
    let hash = get slug.1 in
    some (record {
      id = id.0;
      channel_id = channel;
      channel_slug = slug.0;
      message_id = message;
      content_hash = hash.0;
      part_index = index;
      part_count = count;
      text = (get hash.1).0;
      speaker_id = speaker;
    })
decode _ = none

decode-encode : (j : Job) → decode (encode j) ≡ some j
decode-encode j =
    rw
      (
        get-put j.id (put j.channel_slug (put j.content_hash (put j.text []))),
        get-put j.channel_slug (put j.content_hash (put j.text [])),
        get-put j.content_hash (put j.text []),
        get-put j.text [],
      )
      refl

abbrev site : Site
site = record {
  now = noon;
  time_format = plain_format;
  fails = λ c. false;
  synthesize = λ job. some (1 ∷ []);
  convert = λ wav. some 1;
  storage_dir = codes "tts";
  marshal_job = λ j. some (encode j);
  unmarshal_job = decode;
}

abbrev job : Text → Job
job id = record {
  id = id;
  channel_id = 5;
  channel_slug = slug;
  message_id = 1;
  content_hash = codes "abcdef";
  part_index = 0;
  part_count = 1;
  text = codes "まめ";
  speaker_id = 3;
}

abbrev waiting_row : Text → JobRow
waiting_row id = record {
  id = id;
  channel_id = 5;
  message_id = 1;
  content_hash = codes "abcdef";
  status = queued;
  error_message = none;
}

abbrev station : Station
station = record {
  jobs = waiting_row (codes "b") ∷ waiting_row (codes "a") ∷ [];
  assets = [];
  parts = [];
  queue = encode (job (codes "b")) ∷ encode (job (codes "a")) ∷ [];
  locks = [];
  files = [];
  told = [];
}

-- A look every half second, at which nothing changes.
abbrev rounds : ℕ → Round
rounds k = record { clock = noon + k * half_second; over = false; site = site; meanwhile = λ s. s }

abbrev speaker : ResolvedSpeaker
speaker = record {
  style_id = 3;
  character_name = codes "Mame";
  character_uuid = codes "uuid";
  style_name = codes "plain";
}

abbrev regexp : Regexp
regexp = record {
  compiles = λ p. true;
  replace_all = λ p s r. s;
  quote_meta = λ s. s;
  is_letter = λ c. true;
  is_digit = λ c. false;
}

abbrev studio : Studio
studio = record {
  enabled = true;
  max_pending = 1;
  resolve = λ uuid. some speaker;
  dictionary = [];
  regexp = regexp;
  static = [];
  content_hash = λ part runes who. part;
  new_uuid = λ n. some (110 ∷ n ∷ []);
}

abbrev target : Target
target = record { channel_id = 5; channel_slug = slug; message_id = 2 }

abbrev plan : Plan
plan = record { speaker = speaker; total_runes = 6; part_count = 2 }

spoken-split_text_example : spoken (split_text (codes "まめ。 豆!")) ≡ solid (codes "まめ。 豆!")
spoken-split_text_example = spoken-split_text (codes "まめ。 豆!")

split_text-IsShort_example : All IsShort (split_text (codes "まめ。 豆!"))
split_text-IsShort_example = split_text-IsShort (codes "まめ。 豆!")

rounds-IsPaced : IsPaced rounds
rounds-IsPaced = λ k. omega arith

job_found : row_of (codes "a") station.jobs ≡ some (waiting_row (codes "a"))
unfolding row_of
job_found = refl

process-Ends_example :
    (t : Station) × (process site rounds (job (codes "a")) station ≡ some t)
    × Ends (job (codes "a")) t
process-Ends_example =
    process-Ends site rounds (job (codes "a")) station (waiting_row (codes "a")) job_found refl refl
      (refl, refl) (rounds-IsPaced, omega arith)

wait_ends_example :
    (r : Station × Waited) × (wait_cached_asset wait_fuel rounds
        (noon + wait_timeout)
        (codes "abcdef")
        0
        station
      ≡ some r)
wait_ends_example = wait_ends rounds noon (codes "abcdef") station rounds-IsPaced (omega arith)

site-IsFaithful : IsFaithful decode site
site-IsFaithful = record {
  replies = refl;
  reads = refl;
  returns = λ j payload e. let same : encode j ≡ payload = cc e in rw (← same) (decode-encode j);
}

-- A job is pushed between two that are taken.
abbrev turns : List QueueEvent
turns = pop site ∷ push site (job (codes "c")) ∷ pop site ∷ []

fifo_example :
    served turns station ++ waiting decode (run turns station)
    ≡ waiting decode station ++ map some (accepted turns station)
fifo_example = fifo decode turns station (site-IsFaithful, (site-IsFaithful, (site-IsFaithful, tt)))

skip_overflow_lem_example :
    (waiting_in 5 (skip_overflow studio site target station).jobs
      ≡ take 1 (waiting_in 5 station.jobs))
    × (keep (λ r. not (r.channel_id == 5)) (skip_overflow studio site target station).jobs
        ≡ keep (λ r. not (r.channel_id == 5)) station.jobs)
skip_overflow_lem_example = skip_overflow_lem studio site target station refl refl

abbrev two_parts : List Text
two_parts = codes "まめ。" ∷ codes "豆!" ∷ []
