-- ===== src/Tts/Hash.antt =====
-- tts/text.go: the name under which the sound of a part is kept (`ContentHash`). The hash function
-- with its hexadecimal form, and the formatted voice parameters, are arguments.
use mamechat.Prelude.{ℕ, List, [], ◌∷◌, ◌++◌, Text, codes, decimal}

-- `voicevox.ResolvedSpeaker`
pub record ResolvedSpeaker : Type 0 where
  pub style_id : ℕ
  pub character_name : Text
  pub character_uuid : Text
  pub style_name : Text

-- The settings of a voice, each as `formatFloat` writes it, and the versions.
pub record VoiceSettings : Type 0 where
  pub speed_scale : Text
  pub pitch_scale : Text
  pub intonation_scale : Text
  pub volume_scale : Text
  pub pre_phoneme_length : Text
  pub post_phoneme_length : Text
  pub voicevox_engine_version : Text
  pub normalizer_version : Text

-- The lines of the text that is hashed.
abbrev pub hashed_lines : Text → VoiceSettings → ResolvedSpeaker → List Text
hashed_lines text v speaker =
    codes "tts-cache-v1"
    ∷ text
    ∷ decimal speaker.style_id
    ∷ speaker.character_name
    ∷ speaker.character_uuid
    ∷ speaker.style_name
    ∷ v.speed_scale
    ∷ v.pitch_scale
    ∷ v.intonation_scale
    ∷ v.volume_scale
    ∷ v.pre_phoneme_length
    ∷ v.post_phoneme_length
    ∷ v.voicevox_engine_version
    ∷ v.normalizer_version
    ∷ codes "splitter-v1"
    ∷ codes "m4a:aac-lc:48000:mono"
    ∷ []

-- The lines with line feeds between them.
unfoldable pub join_lines : List Text → Text
join_lines [] = []
join_lines (l ∷ []) = l
join_lines (l ∷ m ∷ ls) = l ++ 10 ∷ join_lines (m ∷ ls)

unfoldable pub content_hash : (Text → Text) → Text → VoiceSettings → ResolvedSpeaker → Text
unfolding join_lines
content_hash sha256_hex text v speaker = sha256_hex (join_lines (hashed_lines text v speaker))
