-- ===== src/Chat.antt =====
-- backend/internal/chat: the chat hub, its messages and its WebSocket handlers.
pub mod Time
pub mod User
pub mod Channel
pub mod Message
pub mod Notices
pub mod Presence
pub mod Hub
pub mod Timer
pub mod Connections
pub mod Bus
pub mod Requests
pub mod Post
pub mod Handler
pub mod Reader
pub mod Admission
pub mod Lobby
