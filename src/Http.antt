-- ===== src/Http.antt =====
-- backend/internal/httpserver: the answers of the HTTP handlers. The body of a success, which shows
-- what the tables hold, is left out.
pub mod Manager
pub mod Settings
pub mod Channels
pub mod Authority
pub mod Dictionary
pub mod Messages
use mamechat.Prelude.{ℕ, [], Text, codes}

pub record Response : Type 0 where
  pub status : ℕ
  pub message : Text

-- `writeJSON(w, http.StatusOK, ...)`
abbrev pub success : Response
success = record { status = 200; message = [] }

-- `writeError`
abbrev pub error : ℕ → Text → Response
error status message = record { status = status; message = message }

abbrev pub bad_request : Text → Response
bad_request message = error 400 message

abbrev pub unauthorized : Response
unauthorized = error 401 (codes "unauthorized")

abbrev pub forbidden : Text → Response
forbidden message = error 403 message

abbrev pub not_found : Text → Response
not_found message = error 404 message

abbrev pub conflict : Text → Response
conflict message = error 409 message

abbrev pub internal_error : Text → Response
internal_error message = error 500 message
