-- ===== src/Http/Settings/Validity.antt =====
-- httpserver/routes.go: that the settings of a channel stay within their bounds.
use mamechat.Prelude.{
  ℕ, ◌≤◌, not, ◌||◌, Option-cases, is_some, Option, none, some, List, Text, length, lookup,
  Bool-cases, inl, inr,
}
use mamechat.Access.{Url, Decoder, Entry}
use mamechat.Chat.User.{UserSnapshot}
use mamechat.Chat.Admission.{Answered}
use mamechat.Chat.Hub.{World, Env, reading_channel, reloading_channel}
use mamechat.Store.{ChannelRow}
use mamechat.Http.{Response}
use mamechat.Http.Manager.{is_manager}
use mamechat.Http.Settings.{
  SettingsRequest, Step, ◌>>=◌, max_channel_title_len, set_profile, set_features, features_of,
  set_ttl, mode_problem, change_access, set_access, reloaded, set_up, answered, settings_of,
  update_channel_settings,
}
use mamechat.Http.Settings.Steps.{
  AreSound, >>=-AreSound, set_profile-AreSound, set_features-AreSound, set_ttl-AreSound,
  store_access-AreSound, mode_problem-none,
}

module _ (table : ℕ → ℕ) (parse_url : Text → Option Url) (decoder : Decoder)
    (marshal : List Entry → Option Text) where
  change_access-AreSound :
      (env : Env) (slug : Text) (row : ChannelRow) (setting : Answered Text) (mode : Option Text)
      (given : List Entry × Option Response) (w : World)
      → AreSound w.table
      → AreSound
          (change_access table parse_url decoder marshal env slug row setting mode given w).0.table
  unfolding change_access
  change_access-AreSound env slug row setting mode (list, too_long) w sound =
      elim (Option-cases (mode_problem row setting mode)) [
        | inr (problem, e) ↦ rw e sound
        | inl e ↦ rw e (
            >>=-AreSound (w, too_long) _ sound
              (λ w2.
                store_access-AreSound env slug _ (marshal list) w2
                  (mode_problem-none row setting mode e)))
      ]

  set_access-AreSound :
      (env : Env) (slug : Text) (row : ChannelRow) (setting : Answered Text) (mode : Option Text)
      (entries : Option (List Entry)) (w : World)
      → AreSound w.table
      → AreSound
          (set_access table parse_url decoder marshal env slug row setting mode entries w).0.table
  unfolding set_access
  set_access-AreSound env slug row setting none none w sound = sound
  set_access-AreSound env slug row setting none (some es) w sound =
      change_access-AreSound env slug row setting none _ w sound
  set_access-AreSound env slug row setting (some mode) entries w sound =
      change_access-AreSound env slug row setting (some mode) _ w sound

  reloaded-AreSound :
      (env : Env) (slug : Text) (w : World)
      → AreSound w.table
      → AreSound (reloaded table parse_url decoder marshal env slug w).0.table
  unfolding reloaded
  reloaded-AreSound env slug w sound =
      elim (Bool-cases (env.fails reloading_channel || not (is_some (lookup slug w.table)))) [
        | inl e ↦ rw e sound
        | inr e ↦ rw e sound
      ]

  set_up-AreSound :
      (env : Env) (slug : Text) (row : ChannelRow) (setting : Answered Text) (req : SettingsRequest)
      (w : World)
      → length slug ≤ max_channel_title_len
      → AreSound w.table
      → AreSound (set_up table parse_url decoder marshal env slug row setting req w).0.table
  unfolding set_up
  set_up-AreSound env slug row setting req w short sound =
      let p1 = set_profile env slug row req.title req.description w in
      let f2 = set_features env slug (features_of row req) in
      let f3 = set_ttl env slug req.post_ttl_hours in
      let f4 =
        set_access table parse_url decoder marshal env slug row setting req.access_mode
          req.access_list in
      let s1 : AreSound p1.0.table =
        set_profile-AreSound env slug row req.title req.description w short sound in
      let s2 : AreSound (p1 >>= f2).0.table =
        >>=-AreSound p1 f2 s1 (set_features-AreSound env slug (features_of row req)) in
      let s3 : AreSound (p1 >>= f2 >>= f3).0.table =
        >>=-AreSound (p1 >>= f2) f3 s2 (set_ttl-AreSound env slug req.post_ttl_hours) in
      let s4 : AreSound (p1 >>= f2 >>= f3 >>= f4).0.table =
        >>=-AreSound (p1 >>= f2 >>= f3) f4 s3
          (set_access-AreSound env slug row setting req.access_mode req.access_list) in
      >>=-AreSound (p1 >>= f2 >>= f3 >>= f4) (reloaded table parse_url decoder marshal env slug) s4
        (reloaded-AreSound env slug)

  answered-same :
      (p : Step)
      → AreSound p.0.table
      → AreSound (answered table parse_url decoder marshal p).0.table
  unfolding answered
  answered-same (w, none) s = s
  answered-same (w, some response) s = s

  settings_of-AreSound :
      (env : Env) (user : UserSnapshot) (slug : Text) (setting : Answered Text)
      (body : Option SettingsRequest) (o : Option ChannelRow) (w : World)
      → length slug ≤ max_channel_title_len
      → AreSound w.table
      → AreSound
          (settings_of table parse_url decoder marshal env user slug setting body o w).0.table
  unfolding settings_of
  settings_of-AreSound env user slug setting body none w short sound = sound
  settings_of-AreSound env user slug setting none (some row) w short sound =
      elim (Bool-cases (is_manager user row)) [ inl e ↦ rw e sound | inr e ↦ rw e sound ]
  settings_of-AreSound env user slug setting (some req) (some row) w short sound =
      elim (Bool-cases (is_manager user row)) [
        | inl e ↦ rw e (answered-same _ (set_up-AreSound env slug row setting req w short sound))
        | inr e ↦ rw e sound
      ]

  -- Whatever a request to set a channel up answers, an error half way included, every channel
  -- keeps a title of at most 50 characters, a description of at most 200, posts that live 6, 24 or
  -- 72 hours, and one of the three modes of access, if the channels were so before and the slug has
  -- at most 50 characters.
  pub update_channel_settings-AreSound :
      (env : Env) (session : Option UserSnapshot) (slug : Text) (setting : Answered Text)
      (body : Option SettingsRequest) (w : World)
      → length slug ≤ max_channel_title_len
      → AreSound w.table
      → AreSound
          (update_channel_settings table parse_url decoder marshal env session slug setting body
            w).0.table
  unfolding update_channel_settings
  update_channel_settings-AreSound env none slug setting body w short sound = sound
  update_channel_settings-AreSound env (some user) slug setting body w short sound =
      elim (Bool-cases (env.fails reading_channel)) [
        | inl e ↦ rw e sound
        | inr e ↦
            rw e
              (settings_of-AreSound env user slug setting body (lookup slug w.table) w short sound)
      ]
