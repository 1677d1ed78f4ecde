-- ===== src/Lib.antt =====
-- sshportal is an SSH bastion: users log in to it with their own keys, and it connects them to
-- hosts under keys that only it holds. This library models its decisions.
--
-- * Base, Strconv: shared names, and what the program uses of Go's strings, strconv and fmt.
-- * Models (pkg/dbmodels/dbmodels.go): the rows of the database as records.
-- * Access (pkg/bastion/acl.go): checkACLs as `check_acls`. Acls has its loops over the groups, the
--   map `aclMap` as a list with one entry for each id, and the choice of an entry; Hook has
--   checkACLsHook. Go's map order and sort.Sort, which is not stable, are a `Runtime` with the laws
--   that they are documented to have; the external command and the JSON encoder are a `HookEnv`.
-- * Hosts (pkg/dbmodels/dbmodels.go): the methods of Host. The URL parser of net/url is a parameter.
-- * Auth (pkg/bastion/ssh.go): PasswordAuthHandler and PublicKeyAuthHandler as `password_auth` and
--   `public_key_auth`. The tables of users and keys are an `Accounts`, with gorm's documented First,
--   Create and Updates; the state is whatever the database keeps.
-- * Channel (pkg/bastion/ssh.go): ChannelHandler and bastionClientConfig. `channel_handler` gives the
--   outcome of a channel, up to multiChannelHandler or the telnet bridge; `walk` is the loop over the
--   chain of hops, on fuel. What gorm answers to Association is a parameter, by the name that is asked
--   for; as gorm documents it, the name that the code gives is an error, and one round is enough.
--   Pinning has dynamicHostKey, over any sequence of connections.
-- * Session (pkg/bastion/session.go): `pipe`. `copies` has the goroutines that copy the data, by the
--   type of the channel and the logging mode; `run` is the loop over what `select` receives from `errch`
--   and `quit`, in the order in which it receives it, with the closings that it does. Start has the
--   opening of the log file, and all of `pipe`; Relay has the two goroutines that pass requests on,
--   over the channels as `Wires`; Hops has multiChannelHandler, over what a `Network` answers; and
--   Closing has the goroutine of ChannelHandler that runs it and updates the session's row, which is
--   where Channel and Session meet.
--   The goroutines of `pipe` run in any order, and `select` takes from either channel: Interleaving has
--   the sequences that can be received.
-- * Tunnel (pkg/bastion/logtunnel.go): the records of a tunnel's log as bytes. Reader is a reader of
--   such a log, for the proofs; the program has none.
-- * Telnet (pkg/bastion/telnet.go): CallTELNET. The Scanner of bufio is written out on fuel, one round
--   for each byte that is there and one more, which is enough since each line has its end.
-- * Server (server.go, main.go, healthcheck.go, and ShellHandler and PrivateKeyFromDB of
--   pkg/bastion/ssh.go): Config has parseServerConfig and ensureLogDirectory, Flags the commands with
--   their flags, Run the steps of `server` over a `Platform`, up to Serve. Health is the healthcheck,
--   on fuel since its loop need not end: the attempts that are watched.
-- * Validation (pkg/dbmodels/validator.go, pkg/utils/emailvalidator.go): `unix_user` and ValidateEmail,
--   their regular expressions as recognizers.
-- * Crypto (pkg/crypto/crypto.go): the encryption of host passwords and private keys. AES, base64 and
--   the random source are a `Suite`; the CFB mode of crypto/cipher is Cfb, a byte at a time. Keys has
--   NewSSHKey and ImportSSHKey, over the generators and parsers of the key libraries.
-- * Lookup (pkg/dbmodels/dbmodels.go): GenericNameOrID and the ByIdentifiers functions as conditions
--   (`Where`) with a meaning over rows (`holds`), HasRole, CheckRoles, and events.
-- * Shell (pkg/bastion/shell.go): every command of the administration shell. Store is the database as
--   gorm documents it: a `Table` for each model, with laws for Find, First, Create, Delete and the
--   updates; a row holds its associations, as Preload would find them. Actions says what a command is:
--   it reads the context, its flags and the libraries (`Env`), and ends in a reply or an error and a
--   state; a transaction that fails keeps the state from before it, and one that is neither committed
--   nor rolled back ends in `left_open`. Fields, Updates and Listing are shared by Acls, Hosts, Groups,
--   Keys, Users (`user`, `userkey`), Sessions (`session`, `event`) and Config (`config`). Run has the
--   tree of commands, and the interactive and the oneshot mode.
-- * Migrations, Startup (pkg/bastion/dbinit.go): DBInit. `migrations` is the list that gormigrate is
--   given, `migrate` runs those of a list in order; gormigrate skips the ones that have run, so a
--   database of version n gets `drop n migrations`. Startup has the rows that are created where they
--   are missing, the closing of the sessions that a halt left active, and randStringBytes.
--
-- The pages of `session ls` are counted on fuel, one round for each session and one, which is enough
-- since a page that is asked for has at least one row or is the last. The other loops are structural
-- recursions, with no fuel. A time is a number. Lengths of texts are counted in characters, which are
-- Go's bytes in ASCII.
--
-- Not modelled: what a command prints before it fails, and the text of `info`, which shows the state
-- of the process; the parser of command lines, the validation of rows by tags, and the JSON coding,
-- which are parameters; the ssh server and client, the listener and the database drivers, of which
-- only the answers appear; the interleaving of the goroutines within one write of a log; the server
-- for the integration tests (testserver.go), which is no part of the portal.
mod Base
pub mod Models
pub mod Migrations
pub mod Startup
pub mod Access
pub mod Strconv
pub mod Hosts
pub mod Lookup
pub mod Auth
pub mod Channel
pub mod Shell
pub mod Session
pub mod Server
pub mod Telnet
pub mod Validation
pub mod Tunnel
pub mod Crypto
