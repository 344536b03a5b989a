-- ===== src/Http/Settings/Steps.antt =====
-- httpserver/routes.go: that each step of setting a channel up keeps the channels within bounds.
use mamechat.Prelude.{
  ℕ, ◌≤◌, ◌≡◌, refl, subst, true, ◌||◌, Option, none, some, Text, ℤ, length, lookup, text_eq,
  text_eq_iff, if◌then◌else◌, arith, Bool-cases, inl, inr,
}
use mamechat.Strings.{is_empty, trim_space}
use mamechat.Strings.Solid.{length-trim_space}
use mamechat.Access.{normalize_mode, mode_whitelist, mode_blacklist}
use mamechat.Chat.Message.{text_value}
use mamechat.Chat.Admission.{Answered}
use mamechat.Chat.Hub.{World, Env, setting_profile, setting_features, setting_ttl, setting_access}
use mamechat.Store.{ChannelRow, Table}
use mamechat.Store.Rows.{lookup-update_where, set_if}
use mamechat.Store.Settings.{
  Features, set_always, set_channel_profile, set_channel_features, set_channel_post_ttl,
  set_channel_access,
}
use mamechat.Http.Settings.{
  Step, ◌>>=◌, max_channel_title_len, max_channel_description_len, validate_channel_text,
  trimmed_text, store_profile, set_profile, set_features, is_post_ttl, set_ttl, mode_problem,
  store_access, or_given,
}

-- A channel whose texts are short enough, whose posts live for one of the lengths on offer, and
-- whose mode is one of the three.
abbrev pub IsSound : ChannelRow → Type 0
IsSound row =
    (length row.title ≤ max_channel_title_len)
    × (length (text_value row.description) ≤ max_channel_description_len)
    × (is_post_ttl row.post_ttl_hours ≡ true)
    × (normalize_mode row.access_mode ≡ row.access_mode)

abbrev pub AreSound : Table → Type 0
AreSound t = (slug : Text) (row : ChannelRow) → lookup slug t ≡ some row → IsSound row

set_if-IsSound :
    (f : ChannelRow → ChannelRow) (o : Option ChannelRow) {row : ChannelRow}
    → ((r : ChannelRow) → o ≡ some r → IsSound (f r))
    → set_if (λ r. true) f o ≡ some row
    → IsSound row
set_if-IsSound f none keeps e = cc
set_if-IsSound f (some r) {row} keeps e =
    let same : f r ≡ row = cc e in subst IsSound same (keeps r refl)

set_always-AreSound :
    (f : ChannelRow → ChannelRow) (slug : Text) (t : Table)
    → ((r : ChannelRow) → IsSound r → IsSound (f r))
    → AreSound t
    → AreSound (set_always f slug t)
set_always-AreSound f slug t keeps sound other row =
    rw (lookup-update_where (λ r. true) f slug other t) (elim (Bool-cases (text_eq slug other)) [
      | inl e ↦ rw e (λ h. set_if-IsSound f (lookup other t) (λ r q. keeps r (sound other r q)) h)
      | inr e ↦ rw e (sound other row)
    ])

pub >>=-AreSound :
    (p : Step) (f : World → Step)
    → AreSound p.0.table
    → ((w : World) → AreSound w.table → AreSound (f w).0.table)
    → AreSound (p >>= f).0.table
>>=-AreSound (w, none) f s keeps = keeps w s
>>=-AreSound (w, some response) f s keeps = s

pub length-trimmed_text : (v : Text) → length (text_value (trimmed_text v)) ≤ length v
unfolding trimmed_text
length-trimmed_text v = elim (Bool-cases (is_empty (trim_space v))) [
  | inl e ↦ rw e (omega arith)
  | inr e ↦ rw e (length-trim_space v)
]

-- Texts with which nothing is wrong.
pub validate_channel_text_lem :
    (title description : Text)
    → is_empty (validate_channel_text title description) ≡ true
    → (length title ≤ max_channel_title_len) × (length description ≤ max_channel_description_len)
unfolding validate_channel_text
validate_channel_text_lem title description h = ground arith

pub length-or_slug :
    (slug title : Text) {n : ℕ}
    → length slug ≤ n
    → length title ≤ n
    → length (if is_empty title then slug else title) ≤ n
length-or_slug slug title hs ht = elim (Bool-cases (is_empty title)) [
  | inl e ↦ rw e hs
  | inr e ↦ rw e ht
]

store_profile-AreSound :
    (env : Env) (slug title description : Text) (w : World)
    → length slug ≤ max_channel_title_len
    → AreSound w.table
    → AreSound (store_profile env slug title description w).0.table
unfolding store_profile set_channel_profile
store_profile-AreSound env slug title description w short sound =
    elim (Bool-cases (is_empty (validate_channel_text title description))) [
      | inr e ↦ rw e sound
      | inl e ↦ elim (Bool-cases (env.fails setting_profile)) [
        | inl f ↦ rw (e, f) sound
        | inr f ↦
            rw (e, f)
              (set_always-AreSound _ slug w.table
                (λ r s. (
                  length-or_slug slug title short (validate_channel_text_lem title description e).0,
                  omega (
                    arith,
                    length-trimmed_text description,
                    (validate_channel_text_lem title description e).1,
                  ),
                  s.2,
                  s.3,
                ))
                sound)
      ]
    ]

pub set_profile-AreSound :
    (env : Env) (slug : Text) (row : ChannelRow) (title description : Option Text) (w : World)
    → length slug ≤ max_channel_title_len
    → AreSound w.table
    → AreSound (set_profile env slug row title description w).0.table
unfolding set_profile
set_profile-AreSound env slug row none none w short sound = sound
set_profile-AreSound env slug row none (some d) w short sound =
    store_profile-AreSound env slug _ _ w short sound
set_profile-AreSound env slug row (some t) description w short sound =
    store_profile-AreSound env slug _ _ w short sound

pub set_features-AreSound :
    (env : Env) (slug : Text) (features : Features) (w : World)
    → AreSound w.table
    → AreSound (set_features env slug features w).0.table
unfolding set_features set_channel_features
set_features-AreSound env slug features w sound = elim (Bool-cases (env.fails setting_features)) [
  | inl f ↦ rw f sound
  | inr f ↦ rw f (set_always-AreSound _ slug w.table (λ r s. s) sound)
]

pub set_ttl-AreSound :
    (env : Env) (slug : Text) (hours : Option ℤ) (w : World)
    → AreSound w.table
    → AreSound (set_ttl env slug hours w).0.table
unfolding set_ttl set_channel_post_ttl
set_ttl-AreSound env slug none w sound = sound
set_ttl-AreSound env slug (some hours) w sound = elim (Bool-cases (is_post_ttl hours)) [
  | inr e ↦ rw e sound
  | inl e ↦ elim (Bool-cases (env.fails setting_ttl)) [
    | inl f ↦ rw (e, f) sound
    | inr f ↦ rw (e, f) (set_always-AreSound _ slug w.table (λ r s. (s.0, s.1, e, s.3)) sound)
  ]
]

normalize_mode-idempotent :
    (mode : Text) → normalize_mode (normalize_mode mode) ≡ normalize_mode mode
unfolding normalize_mode
normalize_mode-idempotent mode =
    elim (Bool-cases (text_eq mode mode_whitelist || text_eq mode mode_blacklist)) [
      | inl e ↦ rw (e, e) refl
      | inr e ↦ rw e refl
    ]

pub store_access-AreSound :
    (env : Env) (slug mode : Text) (raw : Option Text) (w : World)
    → normalize_mode mode ≡ mode
    → AreSound w.table
    → AreSound (store_access env slug mode raw w).0.table
unfolding store_access set_channel_access
store_access-AreSound env slug mode none w m sound = sound
store_access-AreSound env slug mode (some raw) w m sound =
    elim (Bool-cases (env.fails setting_access)) [
      | inl f ↦ rw f sound
      | inr f ↦ rw f (set_always-AreSound _ slug w.table (λ r s. (s.0, s.1, s.2, m)) sound)
    ]

-- A mode with which nothing is wrong, or the one the channel has.
pub mode_problem-none :
    (row : ChannelRow) (setting : Answered Text) (mode : Option Text)
    → mode_problem row setting mode ≡ none
    → normalize_mode (or_given (normalize_mode row.access_mode) mode)
      ≡ or_given (normalize_mode row.access_mode) mode
unfolding mode_problem
mode_problem-none row setting none = λ h. normalize_mode-idempotent row.access_mode
mode_problem-none row setting (some mode) = elim (Bool-cases (text_eq (normalize_mode mode) mode)) [
  | inr e ↦ rw e (λ h. cc)
  | inl e ↦ λ h. (text_eq_iff (normalize_mode mode) mode).0 e
]
