-- ===== src/Chat/Admission/Decision.antt =====
-- chat/websocket.go: who is let in.
use mamechat.Prelude.{
  ℕ, ◌≡◌, ◌≢◌, ◌↔◌, ◌⊎◌, inl, inr, refl, Bool, true, false, not, ◌&&◌, Option, some, Text, ◌==◌,
  ==_iff, is_some, arith, [], ◌∷◌, text_eq_iff, if◌then◌else◌,
}
use mamechat.Access.{
  Url, Decoder, mode_whitelist, mode_blacklist, listed, parse_list, user_keys, allowed,
  effective_mode,
}
use mamechat.Chat.User.{UserSnapshot}
use mamechat.Store.{ChannelRow}
use mamechat.Chat.Admission.{
  Answered, admitted, found, channel_suspended, not_allowed, owner_id, whitelist_enabled, passes,
  is_exempt, admit,
}

or_else : {A B C : Type 0} → (B → C) → A ⊎ B → A ⊎ C
or_else f (inl a) = inl a
or_else f (inr b) = inr (f b)

let_in :
    (row : ChannelRow) (closed owner exempt pass : Bool)
    → ((if closed && not owner
          then channel_suspended
          else if not exempt && not pass
          then not_allowed
          else admitted row)
        ≡ admitted row)
      ↔ (((closed ≡ false) ⊎ (owner ≡ true)) × ((exempt ≡ true) ⊎ (pass ≡ true)))
let_in row closed owner exempt pass = ground arith

module _ (table : ℕ → ℕ) (parse_url : Text → Option Url) (decoder : Decoder) where
  -- The list of a channel names a user.
  abbrev pub names : ChannelRow → UserSnapshot → Bool
  names row user =
      listed table parse_url (parse_list decoder row.access_list)
        (user_keys table parse_url user.provider user.subject user.handle user.profile_url)

  passes_iff :
      (row : ChannelRow) (user : UserSnapshot) (setting : Answered Text)
      → (passes table parse_url decoder row user setting ≡ true) ↔ (
          ((row.access_mode ≢ mode_blacklist) ⊎ (names row user ≡ false))
          × ((row.access_mode ≢ mode_whitelist)
              ⊎ ((whitelist_enabled setting ≡ false) ⊎ (names row user ≡ true))))
  unfolding allowed effective_mode
  passes_iff row user setting = ground (
    arith,
    text_eq_iff row.access_mode mode_whitelist,
    text_eq_iff row.access_mode mode_blacklist,
  )

  -- A user with a session who asks for a channel that exists is let in exactly when the channel
  -- is not closed or is the user's own, and the user is exempt from its list, or the list is not a
  -- blacklist that names the user and not a whitelist, in force, that does not.
  pub admit_iff :
      (slug : Text) (user : UserSnapshot) (row : ChannelRow) (setting : Answered Text)
      → slug ≢ []
      → (admit table parse_url decoder slug (some user) (found row) setting ≡ admitted row) ↔ (
          ((is_some row.suspended_at ≡ false) ⊎ (user.id ≡ owner_id row.owner_user_id))
          × ((is_exempt table parse_url decoder row user ≡ true)
              ⊎ (((row.access_mode ≢ mode_blacklist) ⊎ (names row user ≡ false))
                  × ((row.access_mode ≢ mode_whitelist)
                      ⊎ ((whitelist_enabled setting ≡ false) ⊎ (names row user ≡ true))))))
  unfolding admit
  admit_iff [] user row setting h = absurd (h refl)
  admit_iff (c ∷ cs) user row setting h =
      let rules =
        let_in row (is_some row.suspended_at) (user.id == owner_id row.owner_user_id)
          (is_exempt table parse_url decoder row user)
          (passes table parse_url decoder row user setting) in
      let list = passes_iff row user setting in
      let owner = ==_iff user.id (owner_id row.owner_user_id) in
      (
        λ e. let (a, b) = rules.0 e in (or_else owner.0 a, or_else list.0 b),
        λ e. rules.1 (or_else owner.1 e.0, or_else list.1 e.1),
      )
