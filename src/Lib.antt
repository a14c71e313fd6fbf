-- ===== src/Lib.antt =====
-- NeoNect server: verification library for a relay server of end-to-end encrypted messages.
--
-- The program keeps users, friendships, devices and a queue of envelopes in one SQLite file, and
-- answers HTTP requests under rate limits. A request passes the rate limiter, then a service, which
-- calls the repositories; a repository runs SQL statements.
--
-- Parts:
--   Rate      internal/api/rate_limiter.go and RateLimitMiddleware of internal/api/handler_utils.go.
--             Rate.Window is RateWindow (Prune is `prune`, Record is `record_event`), Rate.Limiter
--             is TimeWindowLimiter, Rate.Gauge is GaugeLimiter, Rate.Requests is RequestRateLimiter.
--             The hash of a key under a seed is any function. A mutex makes each call one step.
--   Db        The tables of internal/infrastructure/persistence/manager.go, and programs of
--             statements over them. A world says which driver calls fail; a failed call changes no
--             table, and a transaction that does not commit is rolled back.
--   Friends   internal/infrastructure/persistence/friendship_manager.go, and in Friends.Service
--             internal/service/friend_service.go. Friends.Protocol has the abstract view: the status
--             of a pair of users, and what each operation makes of it.
--   Queue     internal/infrastructure/persistence/delivery_queue_manager.go; Queue.FanOut is
--             FanOutMessage.
--   Relay     internal/service/relay_service.go: Send and SendEnvelope, and in Relay.Worker
--             DeliveryWorker.Process. Relay.Scheduler has a round of the scheduler: its goroutines
--             run one after another, in any order.
--   Prekeys   internal/infrastructure/persistence/prekey_manager.go: the claim, in Prekeys.Replay the
--             idempotent claim, in Prekeys.Upload the upload; in Prekeys.Service
--             internal/service/prekey_service.go.
--   Sessions  internal/infrastructure/persistence/session_manager.go, its cache included.
--   Accounts  internal/infrastructure/persistence/user_manager.go and internal/service/auth_service.go.
--   Devices   internal/infrastructure/persistence/device_manager.go; in Devices.Service
--             internal/service/device_service.go.
--   Sockets   internal/service/websocket_manager.go: each function is a section of the code that no
--             other goroutine cuts, and Sockets.Steps is the relation of all their interleavings.
--   Http      The handlers of internal/api over the services: Http has the shared state and the
--             guards of handler_utils.go, Http.Auth, Http.Devices, Http.Friends, Http.Relay,
--             Http.Prekeys and Http.System the files of these names. A handler is a program that
--             reads and changes the server and may answer early; a handler F is `handle_f`.
--   App       The middlewares of internal/app/app_routes.go, and in `chain` their order in
--             internal/app/app_init.go. What they stand around, the rate limiter and the routes, is
--             any handler.
--   Vault     security/cipher.go and security/cipher_engine.go; in Vault.Master
--             security/vault_master.go and NewSystemVault of security/vault.go. Protect and Reveal
--             are SealData and OpenData on the bytes of a text.
--   ClientIp  ParseTrustedProxies, isTrustedProxy and GetClientIP of internal/api/handler_utils.go.
--   Config    internal/config/config.go: LoadConfig is `load_config` in Config.Load.
--   Base      Boolean tests, equality, lists, rows of a table, association lists.
--   Error     The errors of the program as one type.
--
-- Bounds and fuel: the loop of AddFriend is recursion on the passes that are left, 3 as in the
-- source, and its last answer is that of the source; the loops of Prune and Record are recursion on
-- the entries left. Natural numbers stand for ids, times and counts, which are not negative; a time
-- and a lifetime are far below 2 ^ 62, so their sum does not wrap. The shift and the product of the
-- backoff keep 64 bits.
--
-- Parameters: `hash` is security.ComputeHash, `hash_password` and `check_password` the functions over
-- bcrypt, `deliver` WebSocketManager.DeliverMessage, `hasher` the hash of maphash, `protect` and
-- `reveal` those of SystemVault, `build` the callback that encodes a response. Http.Env holds those of
-- the handlers with base64 and the hash of a request; the decoded body of a request, the clock and
-- the random bytes are given with the request. In ClientIp the functions of package net are
-- parameters, in Vault the cipher, the random bytes and the files, in Config the environment, the
-- parse of a number and the functions on paths.
--
-- Not modelled: the goroutines of a round of the relay's scheduler cut into each other, and its loops
-- and shutdown; the table of routes; the paths of the configuration, migrations, integrity checks of
-- the database, logging and start-up, which are I/O or the libraries that the source calls.
pub mod Accounts
pub mod App
pub mod Base
pub mod ClientIp
pub mod Config
pub mod Error
pub mod Db
pub mod Devices
pub mod Rate
pub mod Friends
pub mod Queue
pub mod Relay
pub mod Prekeys
pub mod Sessions
pub mod Sockets
pub mod Vault
pub mod Http
