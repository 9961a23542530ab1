-- ===== src/Service/Covered/Examples.antt =====
-- A daemon that is shut down while the command of a client, a connect, is on its way.
use voindns_desktop.Base.{codes, ◌≡◌, some, inl, ok, refl, none, false, [], ◌∷◌}
use voindns_desktop.Redirect.Contract.{Contract}
use voindns_desktop.Proto.{quad9, label}
use voindns_desktop.Std.Net.{display_addr}
use voindns_desktop.Controller.{Controller, new, connect, disconnect}
use voindns_desktop.Ipc.Frame.{read_msg, write_msg}
use voindns_desktop.Controller.Fixtures.{one_port, one_port-Contract, start_on}
use voindns_desktop.Ipc.Server.{
  Server, incoming, again, resume, accept, turn, here, next, handle_conn, dispatch,
}
use voindns_desktop.Ipc.Fixtures.{list_wire, list_channel, take_u32, take_exact}
use voindns_desktop.Ipc.Fixtures.Codecs.{commands, events, put_event, checked, get_command}
use voindns_desktop.Cli.Connected.Fixtures.{switch, start, asked, answered}
use voindns_desktop.Service.Daemon.{
  daemon_port, Served, Late, later, stop_daemon, shutdown, shut_down, at_once,
}
use voindns_desktop.Service.Covered.{EndsOff, RunDaemon-EndsOff}

abbrev switch-Contract : Contract switch
switch-Contract = record {
  routed = λ os. os;
  IsSound = λ os. Unit;
  Applies = λ ip os. Unit;
  Restores = λ os. Unit;
  apply-IsSound = λ ip os s off works. tt;
  restore-IsSound = λ os s works r. tt;
  flush_cache-IsSound = λ os s. tt;
  routed-apply_err = λ ip os e s off works failed. absurd cc;
  routed-restore = λ os s works r. refl;
  routed-flush_cache = λ os s. refl;
}

abbrev Machine : Type 0
Machine = Server switch one_port list_wire list_channel commands events

abbrev waiting : Machine
waiting = record { controller = start; conns = asked ∷ [] }

-- the connection is accepted, and the signal comes before its command is read
abbrev served : Served switch one_port list_wire list_channel commands events none false none start
unfolding daemon_port
served = record { last = waiting; reached = next here (accept asked refl refl); same = refl }

abbrev stopped : Controller switch one_port
stopped = (stop_daemon switch one_port shutdown start).1

abbrev again_on : Controller switch one_port
again_on = (connect switch one_port quad9 stopped).1

abbrev left_behind : Machine
left_behind = record { controller = again_on; conns = answered ∷ [] }

serve_late :
    handle_conn switch one_port list_wire list_channel commands events incoming asked stopped
    ≡ some (again answered, again_on)
unfolding handle_conn read_msg write_msg dispatch connect disconnect stop_daemon start_on put_event
    checked get_command take_u32 take_exact label codes display_addr new
serve_late = refl

queued_connect :
    Late switch one_port list_wire list_channel commands events
      (record waiting { controller = stopped })
      1
      left_behind
unfolding resume
queued_connect =
    later at_once (turn 0 incoming asked (again answered) again_on refl serve_late refl) tt

RunDaemon-EndsOff_example :
    EndsOff switch-Contract one_port-Contract
      (λ os s off. tt)
      (λ os s. (tt, refl))
      list_wire
      list_channel
      commands
      events
      (stop_daemon switch one_port shutdown start).0
      1
      (some again_on)
unfolding served
RunDaemon-EndsOff_example =
    RunDaemon-EndsOff switch-Contract one_port-Contract (λ os s off. tt) (λ os s. (tt, refl))
      list_wire list_channel commands events none none (ok false) (λ os made. (tt, cc)) (ok tt)
      (stop_daemon switch one_port shutdown start).0 1 (some again_on)
      (shut_down false start refl (inl refl) served 1 left_behind queued_connect)
