-- ===== src/Tests/Http.antt =====
-- The theorems on the HTTP handlers, at the channel of user 1.
use mamechat.Prelude.{
  ◌∷◌, any, ◌==◌, All, sym, if◌then◌else◌, text_eq_iff, ◌≤◌, ◌≡◌, ◌⊎◌, refl, false, none, some,
  Option, [], Text, pos, codes, lookup, length, arith, text_eq, Bool-cases, inl, inr, subst,
}
use mamechat.Access.{Url, Decoder, normalize_mode}
use mamechat.Chat.Admission.{no_rows}
use mamechat.Chat.Requests.{request_start_operating}
use mamechat.Chat.Hub.{publish}
use mamechat.Strings.{to_lower, trim_space}
use mamechat.Http.Manager.{
  start_operating, handle_manager, require_channel_manager, is_manager, is_owner, managed, through,
}
use mamechat.Http.Manager.Gates.{Manages}
use mamechat.Http.Manager.Hours.{Performed, handle_manager-Performed}
use mamechat.Http.Settings.{
  SettingsRequest, update_channel_settings, is_post_ttl, max_channel_title_len,
  validate_channel_text,
}
use mamechat.Http.Settings.Steps.{IsSound, AreSound}
use mamechat.Http.Settings.Validity.{update_channel_settings-AreSound}
use mamechat.Http.Channels.{CreateRequest, delete_all, create_channel, normalize_slug, is_slug}
use mamechat.Http.Channels.Creation.{IsCreated, create_channel-IsCreated}
use mamechat.Http.Authority.{
  IsRefused, sweep_up, answer_owner, answer_owner-IsRefused, Administers, RefusesCall, new_channel,
  answer_admin-RefusesCall,
}
use mamechat.Http.Dictionary.{Clerk}
use mamechat.Http.Dictionary.Entries.{AreEntries}
use mamechat.Http.Dictionary.Registering.{IsMatch, posted, happen, happen-AreEntries}
use mamechat.Http.Messages.{delete_channel_message}
use mamechat.Http.Messages.Deletion.{IsOutcome, delete_channel_message-IsOutcome}
use mamechat.Tests.Posts.{board}
use mamechat.Tests.Accounts.{office, accounts}
use mamechat.Tests.{noon, slug, row, user, node, world, table}

-- A clerk who knows two katakana, and finds a directive in a post that is a reading.
abbrev clerk : Clerk
clerk = record {
  now = noon;
  fails = λ c. false;
  lower = λ c. c;
  is_katakana = λ c. any (λ k. k == c) (codes "マメ");
  matches = λ text. if text_eq text (codes "マメ") then (codes "豆", text) ∷ [] else [];
}

abbrev no_url : Text → Option Url
no_url s = none

abbrev reader : Decoder
reader = record { array = λ s. none; string = λ s. none; entry = λ s. none }

slug_short : length slug ≤ max_channel_title_len
slug_short = omega arith

row-IsSound : IsSound row
unfolding is_post_ttl normalize_mode
row-IsSound = (omega arith, omega arith, refl, refl)

table-AreSound : AreSound table
unfolding lookup
table-AreSound other r = elim (Bool-cases (text_eq slug other)) [
  | inl e ↦
      rw e (λ (h : some row ≡ some r). let same : row ≡ r = cc h in subst IsSound same row-IsSound)
  | inr e ↦ rw e (λ (h : none ≡ some r). cc)
]

abbrev short_lived : SettingsRequest
short_lived = record {
  title = some (codes "まめ");
  description = none;
  url_linkify_enabled = none;
  image_upload_enabled = none;
  no_consecutive_posts = some false;
  require_comment_for_attachment = none;
  post_ttl_hours = some (pos 6);
  access_mode = none;
  access_list = none;
}

update_channel_settings-AreSound_example :
    AreSound
      (update_channel_settings
        (λ c. c)
        no_url
        reader
        (λ l. some (codes "[]"))
        node
        (some (user 1))
        slug
        no_rows
        (some short_lived)
        world).0.table
update_channel_settings-AreSound_example =
    update_channel_settings-AreSound (λ c. c) no_url reader (λ l. some (codes "[]")) node
      (some (user 1)) slug no_rows (some short_lived) world slug_short table-AreSound

answer_owner-IsRefused_example :
    IsRefused world (
      answer_owner
        (λ c. c)
        no_url
        reader
        (λ l. none)
        node
        (some (user 2))
        slug
        (sweep_up delete_all)
        world)
    ⊎ Manages (some (user 2)) slug world
answer_owner-IsRefused_example =
    answer_owner-IsRefused (λ c. c) no_url reader (λ l. none) node (some (user 2)) slug
      (sweep_up delete_all) world

abbrev wish : CreateRequest
wish = record { slug = codes "Mame_Chat"; title = []; description = codes "beans" }

answer_admin-RefusesCall_example :
    RefusesCall node office clerk
      (λ c. c)
      (some (user 1))
      (new_channel 6 (some wish))
      board
      accounts
      []
    ⊎ Administers (some (user 1))
answer_admin-RefusesCall_example =
    answer_admin-RefusesCall node office clerk (λ c. c) (some (user 1)) (new_channel 6 (some wish))
      board accounts []

started :
    (handle_manager node (some (user 1)) slug (start_operating (some (pos 30))) world).1.status
    ≡ 200
unfolding handle_manager through require_channel_manager is_manager is_owner managed lookup
    request_start_operating publish
started = refl

handle_manager-Performed_example :
    Performed node slug
      (start_operating (some (pos 30)))
      world
      (handle_manager node (some (user 1)) slug (start_operating (some (pos 30))) world)
handle_manager-Performed_example =
    handle_manager-Performed node (some (user 1)) slug (start_operating (some (pos 30))) world refl
      started

made : (create_channel node (λ c. c) 6 (some (user 2)) (some wish) world).1.status ≡ 201
unfolding create_channel is_slug normalize_slug to_lower trim_space validate_channel_text lookup
made = refl

create_channel-IsCreated_example :
    IsCreated (user 2) world (create_channel node (λ c. c) 6 (some (user 2)) (some wish) world).0
create_channel-IsCreated_example =
    create_channel-IsCreated node (λ c. c) 6 (user 2) (some wish) world made

clerk-IsMatch : (text : Text) → All (IsMatch clerk) (clerk.matches text)
clerk-IsMatch text = elim (Bool-cases (text_eq text (codes "マメ"))) [
  | inl e ↦
      let same : codes "マメ" ≡ text = sym ((text_eq_iff text (codes "マメ")).0 e) in
      rw (e, ← same) ((omega arith, omega arith, refl), tt)
  | inr e ↦ rw e tt
]

empty-AreEntries : AreEntries clerk []
unfolding lookup
empty-AreEntries key row h = absurd (cc h)

happen-AreEntries_example : AreEntries clerk (happen clerk (posted (user 2) (codes "マメ")) [])
happen-AreEntries_example =
    happen-AreEntries clerk (posted (user 2) (codes "マメ")) [] clerk-IsMatch empty-AreEntries

delete_channel_message-IsOutcome_example :
    IsOutcome
      (some (user 1))
      slug
      (codes "1")
      board
      (delete_channel_message node (some (user 1)) slug (codes "1") board)
delete_channel_message-IsOutcome_example =
    delete_channel_message-IsOutcome node (some (user 1)) slug (codes "1") board
