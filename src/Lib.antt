-- ===== src/Lib.antt =====
-- ThunderGo serves the files that users send to a Telegram bot over HTTP. A file is copied to a
-- vault channel and recorded in MongoDB under a token; a request for the token is checked against
-- the record, given to the least loaded of several Telegram clients, and answered with the bytes
-- that the client downloads from the vault. This library models the parts below, from the Go
-- sources at the paths named, and proves what they promise.
--
-- - Tgutil: internal/tgutil/util.go. Range: `ParseRange` and the Content-Range values. Base32:
--   `EncodeBase32`, `DecodeBase32`, `NormalizeBase32`. Media: what is read off a message
--   (`ExtractFileName`, `ExtractMIME`, `ExtractSize`, `ExtractDcID`, `FileKey`, `MediaType`).
--   Disposition: `SanitizeForDisposition`, `DispositionHeader`, `QueryDisposition`. Hex: digests in
--   hexadecimal, `TokenHash`.
-- - RateLimit: internal/ratelimit/ratelimit.go, the sharded limiter of each user's requests.
-- - Cache: internal/store/cache.go, the bounded cache with expiry that stands before each
--   collection of the database.
-- - Store: internal/store/store.go. `FileRecord`; Flags: `BanUser`, `UnbanUser`, `IsUserBanned`,
--   and the same three calls for channels and for authorized users, over a Cache and a collection.
--   IngestLock: `AcquireIngestLock` and `ReleaseIngestLock`. Files: the records of the files, over
--   two Caches and a collection. TouchBuffer: the batched increments, `Increment`, `flushLoop` and
--   `Stop`, as steps of a system. Tokens: the one-time activation tokens. Activations: the activated
--   users, whose documents expire.
-- - Pool: internal/pool/pool.go, the choice of a client and its stream tickets. Leases: the release
--   callbacks, as steps of a system that any number of requests share.
-- - Stream: internal/stream/handler.go. Serving: `ServeHTTP`, which uses Pool, the store, Range,
--   Disposition, Vault and Body. Vault: `resolveVaultMedia` and `isPermanentVaultError`. Body: the
--   chunk loop of `streamBody`.
-- - Shortener: internal/shortener/shortener.go, the client of the URL shortener with its LRU cache.
-- - Config: internal/config/config.go, `validate`, `ListenPort`, `IsOwner`, `ChannelIDToRaw` and
--   `stripInlineComment`. Ports: validated settings. Comment: the comments of dotenv files. Links:
--   `FileURL` and `FileRawURL`.
-- - Ingest: internal/ingest/ingest.go, `Ingest`. The events that it causes, with what Telegram and
--   the store answer as a parameter, are a list beside the result; Run puts together Locking, the
--   attempts at the ingest lock, Forwarding, the forward loop, and Persisting, the record. Mutexes:
--   `fileMutex` and `CleanupDedupMu`. Source: `Source.String`.
-- - Bot: internal/bot/bot.go and internal/bot/commands.go. Dispatch: `dispatchAsync`, from a message
--   to a list of effects. Preflight: `preflight` and `promptActivation`, which use RateLimit,
--   Shortener and Base32. Commands: the commands and their names.
--   Slots: `dispatch`, the semaphore and `Stop`, as steps of a system. Start: `/start` of
--   internal/bot/handlers_basic.go, over Store.Tokens and Store.Activations. Links: `/link` of
--   internal/bot/handlers_link.go, its arguments and the report of a batch. Bans: `/ban`
--   and `/unban` of internal/bot/handlers_owner.go, over Store.Flags.
-- - Http: internal/http/server.go. Redact: `redactPath`. Pages: the routes but the one of the bytes,
--   with the player page over Store.Files.
-- - Prelude: texts, integers, lists and association lists, for all of these.
-- - Examples: the theorems at concrete inputs.
--
-- State is passed explicitly; a call that holds a mutex, and each atomic operation, is one step.
-- Telegram, MongoDB, the HTTP exchange of the shortener and the libraries for URLs and JSON are
-- parameters, and what a theorem needs of them is among its hypotheses. Errors are values.
--
-- Texts are lists of bytes, and white space and letter case are those of ASCII: header values,
-- tokens and MIME types are. Times are numbers of nanoseconds without a bound, and so are the sizes
-- and offsets that the code checks against the range of int64 before it computes with them;
-- `ParseInt` has the bounds of int64, a native integer is that of a 64-bit build, and the buffer of
-- the base32 codec wraps at 64 bits. The chunk loop runs on fuel, the bytes to skip and the bytes to
-- send and one: each round that goes on consumes a byte at least. The loops of Ingest run on the
-- attempts that are left. The symbols written for a byte take a round for each five bits.
--
-- Not modelled: the start and the end of the process (cmd, internal/app), logs, the goroutines that
-- call a sweep or a cleanup on a timer, the requests-per-second limiter, which is a library's, the
-- other handlers of the bot and the texts of its messages (internal/bot/handlers_*.go), which
-- are mostly calls of Telegram, the reading of the environment, the router and the templates
-- (internal/http, web), and the users and restart markers of the store.
pub mod Prelude
pub mod Tgutil
pub mod RateLimit
pub mod Cache
pub mod Pool
pub mod Store
pub mod Stream
pub mod Shortener
pub mod Bot
pub mod Ingest
pub mod Http
pub mod Examples
pub mod Config
