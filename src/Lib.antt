-- ===== src/Lib.antt =====
-- Verification of boxctl, a manager of proxy cores on routers: the logic of its Go packages under
-- `internal` that guards the web interface and keeps the user's data.
--
-- Base         the shared library: comparisons, lists and finite maps over native numbers, texts as
--              lists of code points or bytes, and what the program uses of Go's `strings`
-- Web          `internal/web/auth.go`
--   Limiter    the limit of login attempts (`loginLimiter`): `reserve`, `cancel` and `success` on a
--              limiter record; Bounds has its invariant, Window the windows that it keeps apart, and
--              Grants whole series of calls
--   Password   the password records (`VerifyPBKDF2Record`) and PBKDF2; Length is about derived keys
--   Base64     `base64.RawURLEncoding`, over bytes
--   Session    the session keys and the manager (`sessionManager`): generation, rotation and
--              revocation, which publish a new key set once it is saved; Rotation has their
--              outcomes
--   Session/Tokens  `issue` and `verify`; RoundTrip, Soundness, Issue and Keys relate the two, and
--              them to the rotation
-- EventLog     `internal/eventlog/eventlog.go`
--   Redact     the redaction of an entry's fields (`redactFields`); Safety says what it leaves
--   Ring       the bounded log and its subscriptions (`Ring`): Order is about the entries it keeps,
--              Streams about what each subscriber receives over any series of operations
-- FakeIp       `internal/fakeip/store.go`
--   Sections   the AUTO block of the file (`splitSections`): Lines and Scan are about its lines, and
--              Split about the sections
--   Prefix, Document  the prefixes, and the parsed file (`parseDocument`, `validateManual`)
--   Store      the operations on the file, and Locking the revision that guards them
-- RuleList     `internal/rulelist`: the local rule lists with their revisions, and the prefixes that
--              are put before the lines of a list
-- State        the files of the manager's state
--   Profiles   `internal/state/profiles.go`: the profiles and the active one; Activation and Removal
--              are about two operations, Names about the files of the profiles
--   Settings   `internal/state/settings.go`: the settings files; RoundTrip, Keys and Order relate the
--              parser and the printer, Stored is about the load and the save
-- RuleConvert  `internal/ruleconvert/rules.go`: the conversion of rule sets between the cores
--   Predicate  the rules that both cores share (`predicate`), and what a rule says of a connection
--   Library, Decimal  what the package uses of Go's library
--   Leaves     single conditions (`domainPattern`, `cidrPredicate`, `portPredicate`,
--              `portableRegex`); Operands the operands of a logical rule (`splitLogical`), with
--              Splitting about them
--   Classical, Lines  the parsers (`parseClassical`, `parseText`)
--   Mihomo     the text for the core Mihomo (`classical`, `mihomoText`, `outputBehavior`);
--              Translation is about reading that text again
--   SingBox    the document for the core sing-box (`singRule`, `encodeSing`); Meaning, Groups,
--              Accepted and Conversion say what it matches
-- Engine       `internal/engine/supervisor.go`
--   StateFile  the record of a core's process, and how its file is written and read
--   Supervisor the process of a core (`externalProcessSupervisor`); Records is about what the file
--              says of it, Handoff about series of operations
--   LineLog    the lines of a core's output (`lineLogWriter`); Chunks is about how it is cut
--
-- The parts do not call each other: the web server and the services of `internal/app` use them, and
-- are not modelled. Each Examples file runs the code on small inputs.
--
-- A mutex makes each operation of a limiter, a session manager, a ring or a store one step, so
-- that an interleaving is a list of operations. An operation on files takes what the system does
-- during it as an argument: the contents that it reads, and the failures that it meets.
--
-- Times are numbers of nanoseconds since the zero time of Go, which is 0, and differences are natural
-- numbers, as all that are used are positive; Unix seconds, which may be negative, are integers.
-- The counters of the ring and the limiter wrap around at 2 ^ 64. Lengths are in bytes where the
-- source counts bytes.
-- All loops are by recursion on their list or their count, but two: the operands of a logical
-- rule are split on fuel, the length of the text, and the comments before a rule set are skipped on
-- fuel, its length in bytes, as each round takes a character away.
--
-- Arguments of the definitions stand for what the source calls and does not define: SHA-256 and HMAC,
-- the JSON codecs (with the laws in `CodecLaws`, that a codec decodes what it encodes), the random
-- source, the secret store, RFC 3339 times, and the clock. `RedactText` and the case mapping of
-- `strings.ToLower` are arguments as well. The order of a Go map is not modelled: no theorem depends
-- on it.
--
-- Not modelled: the passkeys of the web package, the HTTP layer, the engines, the waiting of their
-- supervisor for a process that it stops, the reading of rule sets in JSON, the list of the profiles,
-- the layout of the state, configurations, backups and updates. The
-- platform code for OpenWrt and the command line are mostly calls of the system.
pub mod Base
pub mod Web
pub mod EventLog
pub mod FakeIp
pub mod RuleList
pub mod State
pub mod RuleConvert
pub mod Engine
