-- ===== src/Tts/Station/Sounds.antt =====
-- tts: that a sound which is touched or stored can be heard.
use mamechat.Prelude.{
  ℕ, suc, ◌≡◌, true, none, some, Text, lookup, lookup-insert_self, Bool-cases, inl, inr, arith,
}
use mamechat.Tts.Station.{
  Asset, Station, Site, touch_asset, touched_asset, upsert_asset, has_audio, size_above_zero,
  touching_asset, storing_asset, tell, publishing, Part, marking_ready,
}
use mamechat.Chat.Message.{ServerMessage}
use mamechat.Tts.Station.Jobs.{create_part, mark_ready}

-- The sound of a hash has a row, whose file is there and is not empty.
abbrev pub Audible : Text → Station → Type 0
Audible hash s = (a : Asset) × (lookup hash s.assets ≡ some a) × (has_audio a.file_path s ≡ true)

pub touch_asset-Audible :
    (site : Site) (hash : Text) (a : Asset) (s : Station)
    → lookup hash s.assets ≡ some a
    → has_audio a.file_path s ≡ true
    → Audible hash (touch_asset site hash s)
unfolding touch_asset has_audio
touch_asset-Audible site hash a s e h = elim (Bool-cases (site.fails (touching_asset hash))) [
  | inl f ↦ rw f (a, e, h)
  | inr f ↦ rw (f, e, touched_asset) (_, lookup-insert_self hash _ s.assets, h)
]

-- A sound that has been stored is audible.
pub upsert_asset-Audible :
    (site : Site) (hash path : Text) (n : ℕ) (s : Station) {a : Asset}
    → lookup path s.files ≡ some (suc n)
    → (upsert_asset site hash path s).1 ≡ some a
    → Audible hash (upsert_asset site hash path s).0
unfolding upsert_asset has_audio
upsert_asset-Audible site hash path n s {a} e =
    elim (Bool-cases (site.fails (storing_asset hash))) [
      | inl f ↦ rw f (λ (u : none ≡ some a). cc)
      | inr f ↦
          rw f
            (λ u. (_, lookup-insert_self hash _ s.assets, rw (e, size_above_zero) (ground arith)))
    ]

pub Audible-tell :
    (site : Site) (slug : Text) (msg : ServerMessage) (hash : Text) (s : Station)
    → Audible hash s
    → Audible hash (tell site slug msg s).0
unfolding tell has_audio
Audible-tell site slug msg hash s h = elim (Bool-cases (site.fails publishing)) [
  | inl e ↦ rw e h
  | inr e ↦ rw e h
]

pub create_part-Audible :
    (site : Site) (part : Part) (hash : Text) (s : Station)
    → Audible hash s
    → Audible hash (create_part site part s)
unfolding create_part has_audio
create_part-Audible site part hash s h = ground arith

pub mark_ready-Audible :
    (site : Site) (id hash : Text) (s : Station)
    → Audible hash s
    → Audible hash (mark_ready site id s)
unfolding mark_ready has_audio
mark_ready-Audible site id hash s h = elim (Bool-cases (site.fails (marking_ready id))) [
  | inl e ↦ rw e h
  | inr e ↦ rw e h
]
