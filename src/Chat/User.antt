-- ===== src/Chat/User.antt =====
-- The users and connections that the hub keeps: `auth.UserSnapshot` of auth/session.go and
-- `Client` of chat/client.go. A nullable column or pointer is an `Option`.
use mamechat.Prelude.{ℕ, Bool, Option, Text, ℤ}
use mamechat.Chat.Time.{Time}

pub record Speaker : Type 0 where
  pub uuid : Text
  pub name : Text
  pub url : Text

pub record UserSnapshot : Type 0 where
  pub id : ℕ
  pub display_name : Text
  pub handle : Text
  pub avatar_url : Text
  pub provider : Text
  pub subject : Text
  pub role : Text
  pub status : Text
  pub profile_url : Text
  pub tts_voicevox_speaker : Option Speaker
  pub ghost_mode : Bool

-- `key` stands for the pointer `*Client`, by which the hub tells connections apart; the connection
-- and the send queue of a client are found by it.
pub record Client : Type 0 where
  pub key : ℕ
  pub user : UserSnapshot
  pub session_id : ℕ
  pub channel_id : ℕ
  pub channel_slug : Text
  pub channel_owner_id : ℕ
  pub suspend_grace_seconds : Option ℤ
  pub channel_suspended : Bool
  pub operating_deadline : Option Time
  pub operating_unlimited : Bool
  pub operating_paused : Option ℤ
