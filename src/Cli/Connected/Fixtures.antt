-- ===== src/Cli/Connected/Fixtures.antt =====
-- A connection on which a client asks for Quad9, on a machine whose DNS obeys.
use voindns_desktop.Base.{◌≡◌, refl, none, some, Bool, true, false, [], ◌∷◌, ok, codes}
use voindns_desktop.Std.Net.{display_addr}
use voindns_desktop.Proto.{label, quad9, connect, status}
use voindns_desktop.Redirect.{DnsRedirector}
use voindns_desktop.Controller as Core
use voindns_desktop.Controller.{Controller, new, listen_addr, is_busy}
use voindns_desktop.Controller.Fixtures.{one_port, start_on}
use voindns_desktop.Ipc.Wire.{Bytes}
use voindns_desktop.Ipc.Frame.{write_msg, read_msg}
use voindns_desktop.Ipc.Server.{incoming, Conn, again, handle_conn, dispatch}
use voindns_desktop.Ipc.Fixtures.{take_u32, take_exact, list_wire, closing, list_channel}
use voindns_desktop.Ipc.Fixtures.Codecs.{
  events, put_event, checked, commands, put_command, get_command,
}

-- Whether it is redirected.
abbrev pub switch : DnsRedirector
switch = record {
  Os = Bool;
  apply = λ ip os. (ok tt, true);
  restore = λ os. (ok tt, false);
  flush_cache = λ os. (ok tt, os);
}

abbrev pub start : Controller switch one_port
start = new switch one_port 53 false none

abbrev pub done : Controller switch one_port
done = (Core.connect switch one_port quad9 start).1

abbrev pub request : Bytes
request = 0 ∷ 0 ∷ 0 ∷ 2 ∷ 3 ∷ 2 ∷ []

pub write_request : write_msg list_wire commands (connect quad9) [] ≡ (ok tt, request)
unfolding write_msg put_command checked
write_request = refl

abbrev pub answer : Bytes
answer = (write_msg list_wire events (status done.status) []).1

abbrev pub asked : Conn list_wire list_channel
asked = record { r = closing request; w = []; subscription = none }

abbrev pub answered : Conn list_wire list_channel
answered = record { r = closing []; w = answer; subscription = none }

pub serve_request :
    handle_conn switch one_port list_wire list_channel commands events incoming asked start
    ≡ some (again answered, done)
unfolding handle_conn read_msg write_msg dispatch Core.connect start_on new put_event checked
    get_command take_u32 take_exact label codes display_addr
serve_request = refl
