-- ===== src/Lib.antt =====
-- RedLab runs training events on simulated, broken RHEL hosts. A participant types command lines into
-- a session; they are parsed, run on a virtual machine that exists only as data, recorded in a chain
-- of hashes and scored from the machine's final state.
--
-- The parts, the files that model them and the code they stand for:
--
-- Prelude        helpers: tests, lists, Go's maps, integers and the 64 bits of `int`
-- GoLib          what the code uses of Go's packages strings, path, sort, strconv, fmt, hex, time
-- Scenario       internal/scenario/types.go: a scenario's documents; Scenario/Validate has
--                ValidateScenario and Scenario/ValidateEvent has ValidateEvent of
--                internal/scenario/loader.go
-- System         internal/system/state.go: the virtual machine. System/Paths has NormalizePath,
--                System/Permissions the permission tests, System/Files the methods on single files,
--                System/Directories MakeDirAll and Chmod, System/Net the network and SELinux,
--                System/Services the services, signals and the journal, System/Processes the process
--                table, System/Sudo SudoAllowed, System/Reset the reset, System/Tree List, Walk, Glob and
--                CopyRecursive, System/Identity AddUser, AddUserToGroup and, of
--                internal/system/basefs.go, the files that list the users; System/Guarded is about
--                what only root changes. System/New has NewState, and System/Base the rest of
--                internal/system/basefs.go
-- Rules          internal/rules/engine.go: conditions on the machine, rules that change its network
-- Scoring        internal/scoring/scoring.go: the automated score
-- Evidence       internal/evidence/chain.go: the chain of events, signed manifests, redaction
-- Shell          internal/shell/parser.go: Shell/Lex has lex, Shell/Parse has Parse
-- Runtime        internal/runtime/session.go: Runtime/Expand has expand, Runtime/Pipeline runPipeline,
--                Runtime/Line RunLine and record, Runtime/Lab RunLab, Restart and
--                SetJudge, Runtime/Start NewSession and Runtime/Redacted redactedEventsLocked
-- Commands       internal/command/command.go: every command. Commands/Text has wc, sort, uniq, cut,
--                cat, head, tail and grep, Commands/Files and Commands/Changes those on files,
--                Commands/Shell, /Identity, /Services, /Network and /Processes the others, and
--                Commands/Registry RegisterCore, Registry.Run and sudo
-- Report         internal/report/diff.go: the difference of two machines
-- Bundle         internal/bundle/bundle.go: VerifyReader, in Bundle/Genuine what an accepted bundle is
-- Auth           internal/auth/credentials.go: records of secrets, and Auth/Upgrade what a new one does
-- Store          internal/store/store.go: the tables. Store/Tokens has the refresh tokens, Store/Once
--                how often one is rotated, Store/Events the rows of events, Store/Replay what loading
--                them gives
-- Server         internal/server/server.go: Server/Limits has allowRequest, Server/Login
--                verifyCredential and rotateLinkToken, Server/Access the tokens, Server/Sessions how a
--                team gets its session, how it stays open and how it is started again,
--                Server/Handlers the logins and the tests of health, Server/Handlers/Entry what a login
--                lets into
-- Samples        a small machine and session for the tests, which stand in modules called Examples
--
-- How they interact: RunLine of Runtime parses with Shell, runs pipelines of Commands, which read
-- and change System, lets Rules change the machine, and appends to the chain of Evidence. RunLab scores
-- with Scoring, which asks Rules whether a condition holds. The server makes sessions with Runtime,
-- keeps their events and its refresh tokens in the tables of Store, and checks secrets with Auth.
--
-- How state is modelled: a method with a pointer receiver takes the state and returns the new one
-- with its result. A method that changes the machine returns a machine also where it fails, since the
-- code can change it before it fails. Locks are left out: a method that locks runs in one step. Go's
-- maps are association lists, and their order stands for the order that Go leaves open. An `int` is
-- an integer, wrapped to 64 bits where sums could leave them. Times are nanoseconds. Texts are
-- sequences of characters: lengths count characters, which are bytes in ASCII texts. A table of the
-- database is a map or a list of rows, and a statement of SQL is written out as what it does to it. A
-- handler is a function of the server's fields and of what the request, the clock, the random source
-- and the database give it; it returns the fields and the status.
--
-- Parameters, which stand for code of other packages: the digest of an event (JSON and SHA-256),
-- Ed25519, bcrypt and the signed tokens' codec (base64, HMAC, JSON) as records with their laws, SHA-256,
-- the entries and the JSON of a bundle, what net/url reads of a URL, path.Match as `glob`, the texts of
-- error messages, and for a session the registry of commands, so that what is shown of it holds
-- whatever the commands do within the hypotheses named there. The commands take a record `Library`,
-- which has the texts of errors, path.Match, net/url, the formats of times and of `printf` and the
-- case of letters, the table of internal/catalog/catalog.go, and the command `lab` as arguments. A
-- command gets the machine and the environment, and returns both with its result; the table of
-- variables is the machine's own as long as `shared` says so.
--
-- Bounds: the loop of ensureParents runs on as many rounds as the path has characters and one more,
-- and expand on as many as the word has characters; a round takes one off at least. itoa prints
-- nineteen digits at most, as many as an `int` has.
--
-- Not modelled: of the machine, its JSON and its locks; of a session, Replay and the
-- report; of the credentials, their file; of the server, its other handlers, recovery, TLS and files;
-- the table of the catalog, YAML and archives of scenarios, the texts of reports, writing bundles, and
-- the command line.
pub mod Prelude
pub mod GoLib
pub mod Scenario
pub mod System
pub mod Rules
pub mod Scoring
pub mod Evidence
pub mod Shell
pub mod Runtime
pub mod Commands
pub mod Report
pub mod Bundle
pub mod Auth
pub mod Store
pub mod Server
pub mod Samples
