-- ===== src/Cli/Connected/Examples.antt =====
-- A connect from its arguments to its exit code, on a machine whose DNS obeys.
use voindns_desktop.Base.{
  ◌∷◌, none, ℕ, suc, Result, Error, ◌≡◌, refl, sym, append-nil, ◌↔◌, ◌⊎◌, false, [], ok, codes,
}
use voindns_desktop.Std.Net.{localhost}
use voindns_desktop.Proto.{quad9, connected, status_disconnected}
use voindns_desktop.Controller.{listen_addr, is_busy}
use voindns_desktop.Controller.Fixtures.{one_port}
use voindns_desktop.Ipc.Client.{one_shot}
use voindns_desktop.Ipc.Server.{resume, incoming, again, accept, turn, here, next}
use voindns_desktop.Ipc.Server.Current.{last_or, serve-IsCurrent}
use voindns_desktop.Ipc.Fixtures.{list_wire, list_wire-Laws, closing, list_channel}
use voindns_desktop.Ipc.Fixtures.Codecs.{
  events, events-IsLossless, events-IsSmall, commands, commands-IsLossless, commands-IsSmall,
}
use voindns_desktop.Cli as Cli
use voindns_desktop.Cli.{success}
use voindns_desktop.Cli.Frame as CliFrame
use voindns_desktop.Cli.Agreement.{service_code}
use voindns_desktop.Cli.Connected.{connect_args, clients_connect}
use voindns_desktop.Gui as Gui
use voindns_desktop.Gui.Frame as GuiFrame
use voindns_desktop.Service.Program as Program
use voindns_desktop.Cli.Connected.Fixtures.{
  switch, start, done, request, answer, asked, answered, write_request, serve_request,
}

-- a daemon that counts its runs
abbrev idle : ℕ → Result Error (Unit {0}) × ℕ
idle n = (ok tt, suc n)

clients_connect_example :
    (((Cli.main
          (CliFrame.one_shot list_wire commands events (ok (closing answer, [])))
          (connect_args (codes "voidns") quad9 [])).0
        ≡ success)
      ↔ (done.status.state ≡ connected))
    × ((service_code
            (Program.main
              (ok tt)
              (one_shot list_wire commands events (ok (closing answer, [])))
              idle
              (connect_args (codes "voidns") quad9 [])
              0).0.ended
          ≡ 0)
        ↔ (done.status.state ≡ connected))
    × ((Program.main
          (ok tt)
          (one_shot list_wire commands events (ok (closing answer, [])))
          idle
          (connect_args (codes "voidns") quad9 [])
          0).1
        ≡ 0)
    × (Gui.connect_command
          (GuiFrame.one_shot list_wire commands events (ok (closing answer, [])))
          quad9
        ≡ ok done.status)
    × ((done.status.state ≡ connected) ↔ (
        (start.status.state ≡ connected)
        ⊎ ((is_busy start.status.state ≡ false)
            × ((p : ℕ) × ((one_port.start (listen_addr switch one_port start) quad9 start.net).0
                  ≡ ok p))
            × ((switch.apply localhost start.redirector).0 ≡ ok tt))))
clients_connect_example =
    clients_connect switch one_port list_wire list_wire-Laws list_channel commands events
      commands-IsLossless events-IsLossless commands-IsSmall events-IsSmall idle 0 (codes "voidns")
      quad9 [] (closing answer) [] asked answered start done request [] answer [] tt
      (rw write_request) (rw write_request) refl serve_request refl (sym (append-nil answer))

-- What the service has told its subscribers by then, two statuses.
serve-IsCurrent_example : last_or status_disconnected done.tx ≡ done.status
unfolding resume
serve-IsCurrent_example =
    serve-IsCurrent switch one_port list_wire list_channel commands events 53 false none []
      (record { controller = done; conns = answered ∷ [] })
      (next (next here (accept asked refl refl))
        (turn 0 incoming asked (again answered) done refl serve_request refl))
