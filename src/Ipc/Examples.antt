-- ===== src/Ipc/Examples.antt =====
-- The theorems on the framing, the client and the server at concrete connections.
use voindns_desktop.Base.{
  ◌≡◌, refl, Option, none, some, [], ◌∷◌, ◌++◌, take, Result, ok, err, Error, from_io, arith,
}
use voindns_desktop.Proto.{get_status, Event, status, pong, Status, status_disconnected}
use voindns_desktop.Redirect.Linux.{linux_redirector}
use voindns_desktop.Redirect.Linux.Fixtures.{logging_bus}
use voindns_desktop.Controller.{new}
use voindns_desktop.Controller.Invariant.{IsValid, new-IsValid}
use voindns_desktop.Controller.Fixtures.{one_port, c0}
use voindns_desktop.Redirect.Linux.Fixtures.{fresh_machine}
use voindns_desktop.Ipc.Wire.{Bytes}
use voindns_desktop.Ipc.Frame.{write_msg, read_msg}
use voindns_desktop.Ipc.Frame.RoundTrip.{frame, read_msg-write_msg}
use voindns_desktop.Ipc.Frame.Truncation.{read_msg-take}
use voindns_desktop.Ipc.Server.{
  dispatch, resume, incoming, Conn, again, handle_conn, Server, Step, accept, turn, here, next,
}
use voindns_desktop.Ipc.Server.Turns.{serve-IsValid}
use voindns_desktop.Ipc.Server.Refinement.{
  Service, off, History, Represents, new-Represents, serve_refines,
}
use voindns_desktop.Ipc.Client as Client
use voindns_desktop.Ipc.Client.{one_shot}
use voindns_desktop.Ipc.Client.Exchange.{one_shot-handle_conn}
use voindns_desktop.Ipc.Client.Next.{Encoded, next-Encoded, next_total}
use voindns_desktop.Ipc.Fixtures.{
  take_u32, take_exact, list_wire, list_wire-Laws, closing, list_channel,
}
use voindns_desktop.Ipc.Fixtures.Codecs.{
  events, events-IsLossless, events-IsSmall, put_event, checked, commands, commands-IsLossless,
  commands-IsSmall, put_command, get_command,
}

abbrev idle_event : Event
idle_event = status status_disconnected

-- its frame, with another byte behind it
abbrev idle_frame : Bytes
idle_frame = 0 ∷ 0 ∷ 0 ∷ 5 ∷ 0 ∷ 0 ∷ 0 ∷ 0 ∷ 0 ∷ []

write_idle : write_msg list_wire events idle_event [] ≡ (ok tt, idle_frame)
unfolding write_msg put_event checked
write_idle = refl

read_msg-write_msg_example :
    ((read_msg list_wire events (closing (idle_frame ++ 7 ∷ []))).0 ≡ ok (some idle_event))
    × ((read_msg list_wire events (closing (idle_frame ++ 7 ∷ []))).1.bytes ≡ 7 ∷ [])
    × ((read_msg list_wire events (closing (idle_frame ++ 7 ∷ []))).1.last ≡ (closing []).last)
read_msg-write_msg_example =
    read_msg-write_msg list_wire list_wire-Laws events events-IsLossless idle_event []
      (closing (idle_frame ++ 7 ∷ [])) idle_frame (7 ∷ []) (events-IsSmall idle_event)
      (rw write_idle) (rw write_idle) refl

-- cut behind six of its bytes
read_msg-take_example :
    (read_msg list_wire events (closing (take 6 (frame (1 ∷ 2 ∷ 3 ∷ []))))).0
    ≡ err (from_io (closing []).last)
read_msg-take_example =
    read_msg-take list_wire list_wire-Laws events (1 ∷ 2 ∷ 3 ∷ []) 6
      (closing (take 6 (frame (1 ∷ 2 ∷ 3 ∷ [])))) (omega arith) (omega arith) refl

abbrev two_frames : Bytes
two_frames = 0 ∷ 0 ∷ 0 ∷ 1 ∷ 1 ∷ idle_frame

two_frames-Encoded : Encoded events (pong ∷ idle_event ∷ []) two_frames
unfolding put_event checked
two_frames-Encoded = (
  1 ∷ [],
  idle_frame,
  refl,
  omega arith,
  refl,
  (0 ∷ 0 ∷ 0 ∷ 0 ∷ 0 ∷ [], [], refl, omega arith, refl, refl),
)

next-Encoded_example :
    ((Client.next list_wire events 2 (closing (two_frames ++ 7 ∷ []))).0
      ≡ some (ok (some status_disconnected)))
    × ((Client.next list_wire events 2 (closing (two_frames ++ 7 ∷ []))).1.bytes ≡ 7 ∷ [])
next-Encoded_example =
    next-Encoded list_wire list_wire-Laws events events-IsLossless (pong ∷ []) status_disconnected
      two_frames (7 ∷ []) 2 (closing (two_frames ++ 7 ∷ [])) (tt, tt) two_frames-Encoded refl
      (omega arith)

next_total_example :
    (x : Result Error (Option Status)) × ((Client.next list_wire events 4
        (closing (0 ∷ 0 ∷ 9 ∷ []))).0
      ≡ some x)
next_total_example =
    next_total list_wire list_wire-Laws events 4 (closing (0 ∷ 0 ∷ 9 ∷ [])) (omega arith)

abbrev request : Bytes
request = 0 ∷ 0 ∷ 0 ∷ 1 ∷ 0 ∷ []

write_request : write_msg list_wire commands get_status [] ≡ (ok tt, request)
unfolding write_msg put_command checked
write_request = refl

abbrev fresh_conn : Conn list_wire list_channel
fresh_conn = record { r = closing request; w = []; subscription = none }

abbrev served_conn : Conn list_wire list_channel
served_conn = record { r = closing []; w = idle_frame; subscription = none }

serve_request :
    handle_conn
      (linux_redirector logging_bus)
      one_port
      list_wire
      list_channel
      commands
      events
      incoming
      fresh_conn
      c0
    ≡ some (again served_conn, c0)
unfolding handle_conn read_msg write_msg dispatch new put_event checked get_command take_u32
    take_exact
serve_request = refl

-- A status request, from the client to the service and back.
one_shot-handle_conn_example :
    (one_shot list_wire commands events (ok (closing idle_frame, [])) get_status
      ≡ ok (dispatch (linux_redirector logging_bus) one_port list_channel get_status c0 none).0)
    × (c0 ≡ (dispatch (linux_redirector logging_bus) one_port list_channel get_status c0 none).1)
    × (served_conn.r.bytes ≡ [])
one_shot-handle_conn_example =
    one_shot-handle_conn (linux_redirector logging_bus) one_port list_wire list_wire-Laws
      list_channel commands events commands-IsLossless events-IsLossless commands-IsSmall
      events-IsSmall get_status (closing idle_frame) [] fresh_conn served_conn c0 c0 request []
      idle_frame [] (rw write_request) (rw write_request) refl serve_request refl refl

abbrev Machine : Type 0
Machine = Server (linux_redirector logging_bus) one_port list_wire list_channel commands events

abbrev quiet : Machine
quiet = record { controller = c0; conns = [] }

abbrev asked : Machine
asked = record { controller = c0; conns = fresh_conn ∷ [] }

abbrev answered : Machine
answered = record { controller = c0; conns = served_conn ∷ [] }

answering-Step :
    Step
      (linux_redirector logging_bus)
      one_port
      list_wire
      list_channel
      commands
      events
      asked
      answered
unfolding resume
answering-Step = turn 0 incoming fresh_conn (again served_conn) c0 refl serve_request refl

-- A client connects and asks for the status.
serve-IsValid_example : IsValid (linux_redirector logging_bus) one_port c0
serve-IsValid_example =
    serve-IsValid (linux_redirector logging_bus) one_port list_wire list_channel commands events
      {s = quiet} {t = answered} (next (next here (accept fresh_conn refl refl)) answering-Step)
      (new-IsValid (linux_redirector logging_bus) one_port 53 fresh_machine none)

-- The same run, for the abstract service.
serve_refines_example :
    (b : Service) × History off (some get_status ∷ none ∷ []) b
    × Represents (linux_redirector logging_bus) one_port b c0
unfolding answering-Step read_msg take_u32 take_exact get_command
serve_refines_example =
    serve_refines (linux_redirector logging_bus) one_port list_wire list_channel commands events
      {s = quiet} {t = answered} off (next (next here (accept fresh_conn refl refl)) answering-Step)
      (new-Represents (linux_redirector logging_bus) one_port 53 fresh_machine none)
