-- ===== src/Lib.antt =====
-- AliasDeck keeps a user's shell aliases in one place and writes them into a file that the shell sources.
--
-- The parts of the program, as internal/ has them, and the modules that model them:
--
--   internal/domain      Domain.Shell, Domain.Alias, Domain.Resolved
--     Aliases, devices, and the configuration that `Resolve` computes for a device: the aliases that
--     apply, sorted by name, with a revision that is a hash of their contents.
--   internal/validate    Validate.Name, Validate.Command, Validate.Issues, Validate.Filter
--     `Name`, `Command`, `Description`, `Alias`, `Config` and `FilterValid`. Messages are constructors.
--   internal/renderers   Renderers.Quote, .Header, .Posix, .PowerShell, .Render; .Legacy, .LegacyFile
--     `Render` behind its guard on `validate.Config`, and the reader of files of earlier versions
--     (legacy_posix.go).
--   internal/importers   Importers.Lexer, Importers.Statement, Importers.Posix
--     `ParsePOSIX`, which reads alias definitions out of a startup file without running a shell.
--   internal/apply       Apply.BootstrapLine, Apply.Content, Apply.Atomic, Apply.Bootstrap, Apply.Native
--     The marked block in the user's startup file (bootstrap.go), the atomic write (atomic.go), and the
--     backends that place the generated file (native.go).
--   internal/state       State
--     `Load` and `Save` of the record of the last sync.
--   internal/source      Source.Url, .Wire, .Server, .File, .Git
--     Where aliases come from: a local file, a git repository with a cached checkout (`GitSource`), or a
--     server (`ServerSource`), whose response is accepted only with the revision that the client recomputes.
--   internal/app         App.Sync
--     `syncWithContext`: resolve, render, skip or write, and record (sync.go, hash.go).
--   internal/api, internal/sync    Api.Errors, .Sync, .Aliases, .Session, .Enrollment, .Register
--     The server's answer to a sync behind the check of the device's token (sync.go), and the handlers that
--     create, update and delete aliases (aliases.go). Login, logout, enrollment tokens and the registration
--     of a device (auth.go).
--   internal/store, internal/store/sqlitestore    Store.Errors, .Tokens, .Operators, .Accounts, .Aliases
--     The tables of tokens, operators and aliases as lists of rows, with the SQL statements of
--     query.sql.sql.go as functions on them. Store.Enrollment has concurrent enrollments as steps.
--   internal/auth        Auth.Token, .Middleware, .Password, .Reset, .Setup
--     Wire tokens (token.go), `RequireKind` (middleware.go), passwords and their reset, the first operator
--     (bootstrap.go, setup.go).
--   internal/config      Config.Aliases, Config.Detect, Config.Paths
--     The aliases file: `ParseAliases`, `MarshalAliases`, `ProfileWarnings` (aliases.go); platform and shell
--     detection (detect.go); the base directory (paths.go).
--   internal/watchconfig Watch
--     The interval of the watcher (policy.go).
--
-- A source gives aliases, `Resolve` chooses and sorts them, `FilterValid` drops the broken ones, `Render`
-- writes the file, and the block in the startup file sources it. The importer goes the other way. Between a
-- client and a server, `handleSync` resolves and `ServerSource` resolves again and compares the revisions.
--
-- Strings are lists of bytes (Text), and the functions of the packages strings and bytes that the program
-- calls are written out there; Utf8 has the runes, as `for range` and unicode/utf8 see them. An index of -1
-- is `none`, an `error` is a value of `Result` or `Option`, a set kept as a map is a list, a time is a number
-- with 0 for the zero time and for NULL. Modules with Laws in their name, and Targeting,
-- Sort, Resolution, Revision, Clean, Kept, Links, Prepared, GitPath, NotLegacy, Unmarked, PosixLines, OneLine, PosixOneLine, Safety, AfterFilter, ReadLine,
-- Inert, RoundTrip, Termination, Revoked, Store.Enrollment and Again hold proofs.
--
-- Code outside the repository is a parameter: SHA-256 (`hash`, `hash_secret`, `sha256_hex`), `unicode.ToLower`
-- beyond ASCII (`lower`), `strconv.IsPrint` beyond ASCII (`printable`), path/filepath (`PathOps`, `join`), the
-- operating system (`Disk`, `SetupFiles`), the YAML package (`decode_yaml`, `encode_yaml`), JSON (`StateJson`,
-- `decode_sync`), net and net/url (`Net`), the HTTP client (`Http`), running git (`Git`), password hashing
-- (`hash_password`, `Crypto`), the random source, and the store where only its interface counts
-- (`EnrollmentTokens`, `Accounts`, `SyncStore`). SQLite itself is not modelled but the meaning of the
-- statements, its keys and its transactions; a column that holds JSON is the list that it encodes.
-- A request to the sync route has one time, where the code reads the clock for the token and for the sync; a
-- negative duration, which the watcher's policy refuses, is a duration that does not parse.
--
-- Fuel: the loop over the definitions of one alias statement runs on the length of the text and one, and each
-- definition takes at least its '='; `indexOfLine` runs on the length of the content and one, and its offset
-- grows in each round; decimal numbers run on 20 digits, and an `int` has at most 19. The lexers have none:
-- they count the bytes that are to be passed over, and recur on the text.
--
-- Not modelled: the client's other commands, the HTTP routing and middleware, the devices, profiles and
-- audit parts of the API and the store, the web UI, process start, the configuration of a device and its
-- credentials, and writing the aliases file. In `GitSource`, what git does
-- to a checkout; in `ServerSource`, the time of the last resolve and redirects. The sort stands for Go's stable sort by its result.
mod Prelude
pub mod Text
pub mod Utf8
pub mod Domain
pub mod Validate
pub mod Renderers
pub mod Importers
pub mod Apply
pub mod Auth
pub mod Config
pub mod Store
pub mod Source
pub mod Api
pub mod State
pub mod Watch
pub mod App
pub mod Tests
