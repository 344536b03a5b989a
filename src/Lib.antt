-- ===== src/Lib.antt =====
-- Verification of mamechat's backend, the Go program under backend/.
--
-- A channel of mamechat is open until a closing time, or without limit. Users connect to it by
-- WebSocket; several nodes serve one channel and tell each other what happens over a bus (Valkey).
-- While the owner of a channel is away its opening hours may be frozen, and a grace period runs
-- after which the channel closes. The parts and their files:
--
-- * Access.antt is backend/internal/access/access.go: the lists of users that a channel admits or
-- refuses (parse_list, clean_entries, entry_keys, user_keys, listed, allowed).
-- * Store.antt is the table of channels with the statements of
-- backend/internal/generated/db/channels.sql.go that open, close, pause and resume a channel.
-- * Chat/Time, Chat/User, Chat/Message, Chat/Notices, Chat/Message/Reactions are the data of
-- backend/internal/chat/message.go, client.go and backend/internal/auth/session.go.
-- * Chat/Channel.antt is the state of a channel in one node (localChannel of
-- backend/internal/chat/hub.go) and what is done to it under the lock: reassess and
-- compute_suspend_deadline are the decision of evaluateSuspend, apply_operating, apply_paused and
-- apply_unlimited the setters.
-- * Chat/Hub (World, the services, sending), Chat/Presence (buildPresence), Chat/Timer
-- (evaluateSuspend, setSuspendTimer, suspendChannel), Chat/Connections (Register, Unregister,
-- kickAll, DropChannel and others), Chat/Bus (runChannel) and Chat/Requests (RequestStartOperating
-- and others) are the methods of Hub in hub.go.
-- * Chat/Admission, Chat/Post and Chat/Handler are backend/internal/chat/websocket.go: who is let
-- in (ServeHTTP), the checks of a post, and handleChatMessage; Chat/Reader is handleReactionToggle
-- and a turn of readLoop, with the message and the reaction tables in Board.
-- * Chat/Lobby.antt is backend/internal/chat/lobby.go: the subscribers of the list of channels and
-- the loop that serves them, whose steps and sends interleave with everything else.
--
-- * Tts.antt is backend/internal/tts, which has messages read aloud: Tts/Parts and Tts/Normalize
-- are text.go and dictionary.go (SplitText, NormalizeTextWithDictionary), Tts/Hash is ContentHash,
-- Tts/Station the tables of backend/internal/generated/db/tts.sql.go with the queue and the locks of
-- queue.go and the files of the sounds, Tts/Enqueuer is EnqueueMessage of enqueuer.go, and Tts/Worker
-- is process of worker.go with all that it calls.
-- * Accounts.antt is backend/internal/auth/session.go (CreateSession, currentSession, Logout) over the
-- tables of users, sessions, identities and settings; Accounts/Users has the handlers of
-- backend/internal/httpserver/routes.go by which administrators change and delete users and revoke
-- sessions, and Accounts/Profile those by which users change themselves.
-- * Http.antt and its children are handlers of routes.go that change channels: Http/Manager those of
-- the owner for the opening hours, the grace period and the retention, Http/Settings
-- updateChannelSettings, Http/Channels the creation, clearing and deletion of channels and what
-- administrators do to them. They call the hub of Chat/Requests and the statements of Store/Settings.
-- Http/Authority is who may do it. Http/Messages is
-- the deletion of a message, and Http/Dictionary the dictionary of readings that administrators edit and posts add to.
--
-- Strings.antt and Prelude.antt hold the functions of Go's packages that these use and the shared
-- lemmas; Tests.antt and its children hold concrete data and examples.
--
-- An operation is a function from World to World. World has the channels and timers of a node and
-- the send buffers of its clients, and the table of the database; its log lists the effects on the
-- services, the latest first. Env is what one operation finds around it: the clocks, the answers of
-- Valkey and of the visitor queries, and which services fail. Go maps are association lists. What a
-- go statement or a timer starts is a separate step (evaluation_due, timer_fires), and the parts of
-- an operation between which the lock is given up run without interruption. An instant is the number
-- of nanoseconds since year 1, 0 being the zero value; a duration is a natural number, and a
-- subtraction saturates at the largest int64 as time.Sub does. A text is the list of its code
-- points. Every loop is a recursion on its list but the wait of a worker for a sound that another
-- worker makes (wait_cached_asset): it has fuel for 25 looks, which is enough since the looks are half
-- a second apart and the wait is over after twelve seconds. What others do between two looks is an
-- arbitrary change of the Station. The tables of speech and of users are states of their own, Station
-- and Accounts, and the enqueuer, the workers and the handlers run on them one at a time.
--
-- Arguments of the model are: the table of unicode.ToLower beyond ASCII, url.Parse, json.Unmarshal,
-- the format RFC3339Nano (TimeFormat, with the law that parsing undoes formatting), the precision
-- of the database's timestamps (stamp), the JSON of the jobs in the queue, the package regexp, the hashes of tokens and of texts, VOICEVOX
-- and ffmpeg, the characters of the package voicevox and the bodies of requests as they are decoded.
-- Not modelled are: uploads, login with other services, push messages, the HTTP handlers that only
-- show or list something, the removal of old sounds (gc.go), the speed of
-- speech (a float), the WebSocket frames, the interleaving of two operations on one channel, on the
-- accounts or on the tables of speech but for the wait of a worker, and the range of the integer casts
-- in the SQL statements. The bus is taken as reliable where a message is received.
pub mod Prelude
pub mod Strings
pub mod Access
pub mod Store
pub mod Tts
pub mod Accounts
pub mod Http
pub mod Chat
pub mod Tests
