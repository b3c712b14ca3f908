-- ===== src/Lib.antt =====
-- aimless: the client of a serverless chat over the Yggdrasil overlay (client/aimless).
--
-- The client keeps its conversations in an encrypted SQLite database (client/aimless/store.py). The
-- daemon, a separate program, keeps one stream of messages for each peer; client/aimless/service.py
-- fetches the tail of a stream after the cursor of the peer, opens each entry
-- (client/aimless/protocol.py) and routes it into the store. Invites carry keys in base58
-- (client/aimless/base58.py).
--
-- Prelude holds the shared names: tests, lists, tables with a primary key and their laws
-- (Prelude/Table), digits and decimals, sorting.
--
-- Store models store.py. Store/Rows has a record for each table of `_SCHEMA`; the state is the
-- record of the tables, each a list of rows in the order of insertion. Store/Conversations,
-- Store/Messages and Store/Deliveries have one function for each method, under its name without a
-- leading underscore. A method holds the lock of the store while it writes, so that it is one step
-- of the state; Store/Valid has the relation of these steps. SecretBox and `json` are the record
-- `Box`: what was sealed opens again, and the nonces of a call are an argument. Numbers are natural
-- numbers, so that the model speaks of timestamps and sequence numbers that are not negative. The
-- connection, the salt and the key derivation are not modelled.
--
-- Sync models service.py. The reply of the daemon is a list of entries. `protocol.open_message` is
-- a parameter with three outcomes: a message, an exception that `Sync` catches (`ValueError`,
-- `KeyError`), or another exception, which goes through to the caller.
--
-- Base58 models base58.py on lists of bytes and code points, with the loops on digits and the
-- integer conversions of Python written out. The digit loops take `suc n` as fuel for a number `n`,
-- which is enough because a quotient is less than its number.
--
-- Protocol models protocol.py. Protocol/Crypto is the record of what the program takes from pynacl,
-- `json` and `base64`, with the documented laws; Protocol/Envelope seals and opens messages, statuses
-- and file chunks with it, and tells a `ValueError` or `KeyError` from other exceptions as Sync does;
-- Protocol/Files has the routing header, the chunks and their reassembly, with the cutting of a file
-- in client/aimless/gtkui.py; Protocol/RoomId the id of a room, over any hash. Protocol/Hex has
-- `bytes.hex` and `bytes.fromhex`, Protocol/Invite `make_invite`, `_decode_key_field` and
-- `parse_invite`, whose `ValueError`s are the constructors of `InviteError`. Texts are lists of code
-- points.
--
-- Keys models the Yggdrasil address of client/aimless/keys.py and the parsing of node keys.
--
-- Daemon models client/aimless/daemon.py. Daemon/Session is the state of `DaemonClient` with its
-- reader thread, whose rounds are a list of actions; Daemon/Request has both paths of `request`, on a
-- list of turns that stand for what the environment does, so that a request may still wait when they
-- are used up; Daemon/Client is the class `Client` over any daemon.
--
-- Tunnel models client/aimless/tunnel.py: `TunnelSupervisor` on a record of the processes, the socket
-- files, the file with the process id and the signals that were sent. What a wait sees is a list of
-- rounds. The files that are removed can be removed, and no process id is given to another program
-- while the supervisor holds a child with that id. Tunnel/Monitor has the monitoring of the tunnel by `AimlessApp` in client/aimless/gtkui.py,
-- with the timers of GLib in the state and their firing as events.
--
-- Gtk models parts of client/aimless/gtkui.py on the state of its message view, where a widget is what
-- it shows: Gtk/Transfers the files that arrive, over Protocol/Files and Store, Gtk/Attachments their
-- names, Gtk/Incoming the messages that arrive, Gtk/Sidebar the threads, Gtk/Deliveries the acks of
-- files, and Gtk/Alerts the notifications and sounds. `protocol.open_message` at the client's identity
-- is a parameter, as in Sync.
--
-- Gtk/Requests has the answers to the requests of strangers, and Gtk/Actions what the user does with
-- a conversation: to send, mute, block, delete and clear. A handler that asks the daemon in another
-- thread is two functions, one for the request and one for what is done with the answer.
--
-- Contacts models the contacts file, the dictionary from petnames to entries of `load_contacts` in
-- protocol.py, with the functions of cli.py and gtkui.py that change it. The search for a free petname
-- takes one round more than there are contacts as fuel, which is enough because each name that is
-- taken is another one of the dictionary.
--
-- Identity models the identity file of client/aimless/crypto.py, the backup bundles of keys.py, and
-- `restore_bundle` of gtkui.py, on a record of the three files that it writes. The record `Vault` adds
-- scrypt and SecretBox to what Protocol/Crypto has.
--
-- Paths models client/aimless/paths.py on the environment variables that it reads, Logging the log
-- files and their rotation in client/aimless/logging.py, and Cli the commands of client/aimless/cli.py
-- that write to the store or to the daemon, over Daemon, Store, Sync, Contacts and Tunnel.
--
-- Tests has a concrete instance of each theorem of the list below that has arguments.
--
-- Not modelled: sockets, locks and clocks, the other parts of the GTK application (widgets, dialogs,
-- settings, presence, the supervisor of the local daemon), the prompts and prints of the command
-- line, and what they call of the operating system, GTK and pynacl. The Go daemon is a parameter of
-- the client's model, and tether_mock and deploy are programs of their own.
pub mod Prelude
pub mod Store
pub mod Sync
pub mod Base58
pub mod Protocol
pub mod Keys
pub mod Daemon
pub mod Contacts
pub mod Paths
pub mod Identity
pub mod Logging
pub mod Cli
pub mod Tunnel
pub mod Gtk
mod Tests
