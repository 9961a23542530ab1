-- ===== src/Gui/Examples.antt =====
-- The theorems on the GUI's connection at concrete streams.
use voindns_desktop.Base.{
  ℕ, zero, suc, ◌≡◌, refl, none, some, true, false, List, [], ◌∷◌, ◌++◌, Result, ok, err, IoError,
  io_other, from_io, codes, ap, length, arith,
}
use voindns_desktop.Proto.{status, pong, subscribe, get_status, Status, status_disconnected}
use voindns_desktop.Ipc.Wire.{Bytes}
use voindns_desktop.Ipc.Client.Next.{Encoded}
use voindns_desktop.Redirect.Linux.{linux_redirector}
use voindns_desktop.Redirect.Linux.Fixtures.{logging_bus}
use voindns_desktop.Controller.Fixtures.{one_port}
use voindns_desktop.Ipc.Fixtures.{list_wire, list_wire-Laws, list_channel, closing}
use voindns_desktop.Ipc.Fixtures.Broadcast.{list_channel-Laws, told, watcher, watched, watched_turn}
use voindns_desktop.Ipc.Fixtures.Codecs.{
  events, events-IsLossless, events-IsSmall, put_event, checked, commands, put_command,
}
use voindns_desktop.Cli.Frame as Cli
use voindns_desktop.Ipc.Frame as Core
use voindns_desktop.Base.Io.{with_err}
use voindns_desktop.Gui.Frame as Gui
use voindns_desktop.Gui.Frame.{write_msg}
use voindns_desktop.Gui.Agreement.{frames-eq-core}
use voindns_desktop.Gui.Stream.{stream_loop, statuses}
use voindns_desktop.Gui.Live.{stream_loop-broadcast}
use voindns_desktop.Gui.Reconnect.{subscribe_forever, Suffices, subscribe_forever_recovers}
use voindns_desktop.Gui.Window.{App, left, up, click}
use voindns_desktop.Gui.Window.Visibility.{
  Act, menu, tray, View, WindowLaws, act_all, all_meant, act_all-meant,
}

frames-eq-core_example :
    (with_err from_io (Cli.write_msg list_wire commands get_status) []
      ≡ Core.write_msg list_wire commands get_status [])
    × (with_err from_io (Gui.write_msg list_wire commands get_status) []
        ≡ Core.write_msg list_wire commands get_status [])
    × (with_err from_io (Cli.read_msg list_wire commands) (closing (0 ∷ 0 ∷ 0 ∷ 9 ∷ 1 ∷ []))
        ≡ Core.read_msg list_wire commands (closing (0 ∷ 0 ∷ 0 ∷ 9 ∷ 1 ∷ [])))
    × (with_err from_io (Gui.read_msg list_wire commands) (closing (0 ∷ 0 ∷ 0 ∷ 9 ∷ 1 ∷ []))
        ≡ Core.read_msg list_wire commands (closing (0 ∷ 0 ∷ 0 ∷ 9 ∷ 1 ∷ [])))
frames-eq-core_example =
    frames-eq-core list_wire commands get_status [] (closing (0 ∷ 0 ∷ 0 ∷ 9 ∷ 1 ∷ []))

abbrev stream : Bytes
stream = 0 ∷ 0 ∷ 0 ∷ 1 ∷ 1 ∷ 0 ∷ 0 ∷ 0 ∷ 5 ∷ 0 ∷ 0 ∷ 0 ∷ 0 ∷ 0 ∷ []

stream-Encoded : Encoded events (pong ∷ status status_disconnected ∷ []) stream
unfolding put_event checked
stream-Encoded = (
  1 ∷ [],
  0 ∷ 0 ∷ 0 ∷ 5 ∷ 0 ∷ 0 ∷ 0 ∷ 0 ∷ 0 ∷ [],
  refl,
  omega arith,
  refl,
  (0 ∷ 0 ∷ 0 ∷ 0 ∷ 0 ∷ [], [], refl, omega arith, refl, refl),
)

-- The client subscribed before the one status that was broadcast, and was sent it.
stream_loop-broadcast_example :
    stream_loop list_wire events 2 (closing watched.w) [] ≡ some (status_disconnected ∷ [], ok tt)
stream_loop-broadcast_example =
    stream_loop-broadcast {R = linux_redirector logging_bus} {P = one_port} list_wire list_wire-Laws
      {Ch = list_channel} list_channel-Laws commands events events-IsLossless events-IsSmall told 1
      0 watcher watched 0 refl refl (omega arith) (omega arith) (0, watched, watched_turn, refl)
      watched.w (closing watched.w) 2 refl refl refl (omega arith)

-- The service is down in the first pass, and up in the later ones.
abbrev second_time : ℕ → Result IoError (list_wire.Reader × list_wire.Writer)
second_time zero = err (io_other (codes "refused"))
second_time (suc n) = ok (closing stream, [])

abbrev enough : ℕ → ℕ
enough n = 20

abbrev arriving : Result IoError (list_wire.Reader × list_wire.Writer) → ℕ
arriving (ok (r, w)) = length r.bytes
arriving (err e) = 0

second_time-Suffices : Suffices list_wire commands events list_wire-Laws enough second_time
second_time-Suffices zero r w h = absurd cc
second_time-Suffices (suc n) r w h = omega (arith, ap arriving h)

write_subscribe : (write_msg list_wire commands subscribe []).0 ≡ ok tt
unfolding write_msg put_command checked
write_subscribe = refl

subscribe_forever_recovers_example :
    (before after : List Status) × (subscribe_forever list_wire commands events enough second_time 1
      ≡ some before)
    × (subscribe_forever list_wire commands events enough second_time 3
        ≡ some ((before ++ status_disconnected ∷ []) ++ after))
unfolding statuses
subscribe_forever_recovers_example =
    subscribe_forever_recovers list_wire commands events list_wire-Laws events-IsLossless enough
      second_time 1 3 (closing stream) [] (pong ∷ status status_disconnected ∷ []) stream
      second_time-Suffices (omega arith) refl write_subscribe stream-Encoded refl refl

-- A window that obeys.
abbrev obedient : App
obedient = record {
  State = View;
  Window = Unit;
  Failure = Unit;
  get_webview_window = λ name v. some tt;
  is_visible = λ w v. ok v.visible;
  show = λ w v. (ok tt, record v { visible = true });
  unminimize = λ w v. (ok tt, v);
  set_focus = λ w v. (ok tt, v);
  hide = λ w v. (ok tt, record v { visible = false });
  exit = λ n v. record v { exited = some n };
}

abbrev obedient-Laws : WindowLaws obedient
obedient-Laws = record {
  main = tt;
  view = λ v. v;
  found = λ v. refl;
  is_visible-view = λ v. refl;
  view-show = λ v. refl;
  view-unminimize = λ v. refl;
  view-set_focus = λ v. refl;
  view-hide = λ v. refl;
  view-exit = λ n v. refl;
}

-- hidden by a click, shown by the menu, and left
abbrev acts : List Act
acts = tray (click left up) ∷ menu (codes "show") ∷ menu (codes "quit") ∷ []

act_all-meant_example :
    act_all obedient obedient-Laws acts (record { visible = true; exited = none })
    ≡ all_meant acts (record { visible = true; exited = none })
act_all-meant_example =
    act_all-meant obedient obedient-Laws acts (record { visible = true; exited = none })
