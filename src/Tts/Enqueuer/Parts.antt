-- ===== src/Tts/Enqueuer/Parts.antt =====
-- tts/enqueuer.go: what becomes of each part of a message.
use mamechat.Prelude.{
  ℕ, suc, ◌≡◌, Bool, true, false, some, List, [], ◌∷◌, Text, decimal, lookup, ◌⊎◌,
}
use mamechat.Chat.Notices.{tts_part_ready_message}
use mamechat.Tts.Station.{Asset, Job, Station, Site, has_audio}
use mamechat.Tts.Worker.{or_0}
use mamechat.Tts.Enqueuer.{Studio, Target, Plan, hash_of}

-- The queue and the messages of a station are those of another.
SameLine : Station → Station → Type 0
SameLine s t = (t.queue ≡ s.queue) × (t.told ≡ s.told)

module _ (studio : Studio) (site : Site) (target : Target) (plan : Plan) where
  -- The part is announced under its number, with the sound that is stored for it; no job is made.
  pub record IsAnnounced (i : ℕ) (part : Text) (s t : Station) : Type 0 where
    pub sound : Asset
    pub kept : lookup (hash_of studio plan part) s.assets ≡ some sound
    pub audible : has_audio sound.file_path s ≡ true
    pub told :
        t.told
        ≡ (
          target.channel_slug,
          tts_part_ready_message site.time_format site.now
              (decimal target.message_id)
              i
              (hash_of studio plan part)
              (or_0 sound.duration_ms),
        )
          ∷ s.told
    pub queue : t.queue ≡ s.queue

  -- There is no sound for the part, and a job with its number, its text and all that it takes to
  -- make the sound is queued; nothing is announced.
  pub record IsOrdered (i : ℕ) (part : Text) (s t : Station) : Type 0 where
    pub silent :
        (sound : Asset)
        → lookup (hash_of studio plan part) s.assets ≡ some sound
        → has_audio sound.file_path s ≡ false
    pub id : Text
    pub job : Job
    pub filled : job ≡ record {
      id = id;
      channel_id = target.channel_id;
      channel_slug = target.channel_slug;
      message_id = target.message_id;
      content_hash = hash_of studio plan part;
      part_index = i;
      part_count = plan.part_count;
      text = part;
      speaker_id = plan.speaker.style_id;
    }
    pub payload : Text
    pub marshalled : site.marshal_job job ≡ some payload
    pub queue : t.queue ≡ payload ∷ s.queue
    pub told : t.told ≡ s.told

  -- Each part, numbered from `i`, was announced or ordered, one after the other, and nothing else
  -- was announced or queued.
  abbrev pub AreHandled : ℕ → List Text → Station → Station → Type 0
  AreHandled i [] s t = t ≡ s
  AreHandled i (part ∷ parts) s t =
      (m : Station) × (IsAnnounced i part s m ⊎ IsOrdered i part s m) × AreHandled (suc i) parts m t

  Placed : ℕ → Text → Station → Station × Bool → Type 0
  Placed i part s result =
      result.1 ≡ true → IsAnnounced i part s result.0 ⊎ IsOrdered i part s result.0
