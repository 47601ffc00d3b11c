-- ===== src/Lib.antt =====
-- Virtual Private Node: the core of a self-hosted Bitcoin and Lightning node's manager.
--
-- The program installs a node step by step under a ledger that makes an interrupted install
-- resumable, and then offers a terminal interface whose screens prepare and submit wallet operations
-- through LND. The parts modelled here:
--
--   * Amount: the satoshi field of every form (internal/tui/amount_input.go). Amount/Format.antt holds
--     the printing and parsing functions, Amount/Editor.antt the edits: each key and paste goes to the
--     raw digits and back (mutate). The wrapped text input is third-party code, the parameter
--     `TextInput` with its documented laws.
--   * Coins: the identity of a coin and a selection of coins (internal/app/coin_selection.go). A Go map
--     is the list of its keys. The sends and the channel opens use resolve_coins.
--   * Network: the closed table of network profiles (internal/config/network.go). The ledger uses
--     validate_network.
--   * Config: the system configuration (internal/config/config.go). Config.antt holds its validation, its
--     decoding and load, Config/Save.antt the save, each of whose calls may fail. Config/Preferences.antt
--     is the same for a user's preferences (internal/config/preferences.go).
--   * Send: preparing and submitting an on-chain send (internal/app/onchain_send.go). The address
--     library is the parameter `Btcutil`, LND a record of answers; the calls made are a list.
--   * Open: preparing and opening a channel (internal/app/channel_open.go), in Open.antt the preparation
--     and in Open/Workflow.antt the calls. The key library is the parameter `ChannelLib`.
--   * Close, Payment, Invoice: closing a channel, paying a Lightning invoice, creating and checking one
--     (internal/app/channel_close.go, internal/app/lightning_payment.go and
--     internal/app/lightning_invoice.go), each with LND as a record of answers.
--   * Ledger: the install ledger (internal/installer/ledger.go). Ledger.antt holds its validation and its
--     updates, Ledger/Timestamp.antt the time texts that it accepts, Ledger/Publish.antt the save on a
--     disk where every call can fail, Ledger/Keys.antt the scan for repeated JSON names (Ledger/Value.antt
--     gives the tokens of a JSON value), and
--     Ledger/Parse.antt the reading of a ledger. The JSON library is a parameter.
--   * Lifecycle: the beginning of an install (internal/installer/lifecycle.go, with the file checks of
--     internal/installer/runlock.go and the start of RunInstall in internal/installer/setup.go).
--     Lifecycle.antt classifies a host, given by the objects that the code inspects
--     (Lifecycle/Objects.antt); Lifecycle/Init.antt begins an install and resumes an interrupted beginning,
--     Lifecycle/Startup.antt dispatches on the class. Every operation may be the one at which a run is
--     interrupted (Lifecycle/Interrupt.antt), by a failure, a kill or a crash: a file operation is done or
--     not, a write may be done in part. Reordering of unsynced operations by the file system, and other
--     processes, are left out. Lifecycle/Shape.antt, Lifecycle/Valid.antt and Lifecycle/Stages.antt describe the trees that an
--     interruption leaves, the files below them follow the code through these trees. The preflight is a
--     parameter, and so is the umask, of which only the two modes asked for matter.
--   * Engine: the resume planner (Engine.antt) and the runner with its unattended front-end
--     (Engine/Run.antt) of internal/installer/engine.go. A step's function is any function on a state
--     of the machine. Engine/Trace.antt describes runs independently of the code.
--   * Base: lists, texts, results, 64-bit integers, and the decimal, hex and host:port formats of Go's
--     standard library that the parts share.
--
-- Machine integers: int64 is ℤ with wrap64 where the code adds or subtracts; a text is the list of its
-- code points. Fuel: comma_loop has the number itself as fuel, which division by 10 lowers in each round;
-- truncate has the number of digits, of which each round drops one. All other loops are structural.
--
-- Not modelled: log lines and standard output, rendering, gRPC and socket transport, and the steps'
-- system commands, which are I/O; and the helper daemon.
pub mod Base
pub mod Amount
pub mod Coins
pub mod Config
pub mod Network
pub mod Send
pub mod Open
pub mod Close
pub mod Payment
pub mod Invoice
pub mod Ledger
pub mod Lifecycle
pub mod Engine
pub mod Tests
