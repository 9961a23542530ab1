-- ===== src/Lib.antt =====
-- VoidNS desktop: a privileged service that runs a local DNS-over-HTTPS proxy and points the
-- system's DNS at it, and two unprivileged clients, a GUI and a CLI, that send it commands.
--
-- The service holds one controller (crates/voidns-core/src/controller.rs), which starts and stops
-- the proxy (proxy.rs) and redirects and restores the system's DNS (redirect/). Clients reach it
-- through length-prefixed JSON frames on a local socket (ipc.rs), each connection in a task of its
-- own; the controller broadcasts each status to the connections that subscribed.
--
-- The files:
--   Base        what all share: Rust's Result and anyhow's Error, calls that change a state (Io),
--               lists and texts over native numbers. A text is the list of its scalar values.
--   Std         the standard library as far as the source uses it: decimal numbers, addresses with
--               their Display and parser, methods of str, and files and links on a disk.
--   Proto       crates/voidns-proto/src/lib.rs, the commands, events and statuses.
--   Ipc         crates/voidns-core/src/ipc.rs. Wire holds the interface of the transport and of the
--               JSON codec with their documented laws; Frame is write_msg and read_msg, Server is
--               dispatch, handle_conn, recv_opt and serve, Client is one_shot and Subscription. Socket
--               is the interface of local sockets, Endpoint the service's endpoint and what serve does
--               before its loop.
--   Redirect    crates/voidns-core/src/redirect: the trait (Redirect), what the controller may rely
--               on (Contract), the choice of the platform's (Select), the parsers of parse.rs (Parse),
--               linux.rs (Linux), windows.rs (Windows) and macos.rs (Macos).
--   Controller  crates/voidns-core/src/controller.rs: connect and disconnect.
--   Service     crates/voidns-service/src/main.rs: the arguments, the control commands, and in
--               Daemon the port, the serving, the shutdown and the turns behind it, which Covered
--               follows; in Scm winservice.rs and run; Program is main.
--   Cli         crates/voidns-cli/src/main.rs, with its own frames in Frame and its endpoint in
--               Endpoint; Connected takes a connect through the service to the exit code.
--   Gui         crates/gui/src-tauri/src: the commands of lib.rs, in Window the tray's events, and
--               ipc.rs in Frame, Stream, Reconnect and Endpoint.
--   Proxy       crates/voidns-core/src/proxy.rs: the name servers and the options, in Trust the
--               certificates that upstream connections trust, in Start DohProxy::start and stop,
--               in Forwarder the zone handler.
-- The modules called Fixtures and Examples hold concrete machines and connections, and runs of the
-- theorems on them.
--
-- How state is modelled. A call that changes something takes the state and returns a result beside
-- the new state, also when it fails. The controller's record has the source's fields; its channel
-- is the list of the statuses sent, and two further fields hold the machine's sockets and the trace
-- of the states that the machine passed. A connection's task is a sequence of turns, one for each
-- pass of the select loop, and serve is a step relation: a connection is accepted, or one of them
-- takes a turn, in any order; the turns go on behind the end of its loop. A command's turn runs to
-- its end, as it holds the controller's lock. A
-- turn that a status update wins drops the read that was under way with the bytes it had taken.
--
-- Bounds. Ports are parsed as 16-bit numbers, and a frame's length is taken modulo 2 ^ 32, as the
-- cast does. A loop over a stream takes fuel for its passes; each pass that goes on has read four
-- bytes at least, so that the number of bytes bounds the passes. The endless loop of
-- subscribe_forever is taken for any number of passes, each with fuel for its own connection. A
-- chain of symbolic links is followed for 40 links, as on Linux.
--
-- Parameters, for code that is not in the repository: the transport, the codec, tokio's broadcast
-- channel, the D-Bus connection, the Windows API, macOS's dynamic store, the output of commands,
-- hickory's resolver and server, the sockets, rustls, the Service Control Manager of Windows, and
-- tauri's windows. Its documented behaviour stands in records of laws (WireLaws, ChannelLaws,
-- SocketLaws, BusLaws, ApiLaws, StoreLaws, NetworkSetup, BindLaws, ReleaseLaws, ResolverLaws,
-- Cooperates, WindowLaws). The proxy is an interface of the controller (Controller.ProxyServer),
-- which Proxy.Start fills; what the controller relies on of a redirector is Redirect.Contract,
-- which each platform fills under conditions of its own (Linux.Fallback, Linux.Kept,
-- Macos.Override, Windows.Natives).
--
-- Not modelled: the log's lines, the runtime, sd_notify, what only builds the tray's icon and menu
-- and the tauri application, and the front end, which are calls of the system or of a framework
-- without a decision of the program's own.
pub mod Base
pub mod Std
pub mod Proto
pub mod Ipc
pub mod Redirect
pub mod Controller
pub mod Service
pub mod Cli
pub mod Gui
pub mod Proxy
