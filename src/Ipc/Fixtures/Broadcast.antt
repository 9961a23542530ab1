-- ===== src/Ipc/Fixtures/Broadcast.antt =====
-- The channel of the fixtures keeps everything that was sent.
use voindns_desktop.Base.{ℕ, suc, ◌+◌, ◌≤◌, ◌≡◌, refl, some, List, [], ◌∷◌, length, get_elem?, ok}
use voindns_desktop.Proto.{Status, status_disconnected}
use voindns_desktop.Redirect.Linux.{linux_redirector}
use voindns_desktop.Redirect.Linux.Fixtures.{logging_bus}
use voindns_desktop.Controller.Fixtures.{one_port, Example, c0}
use voindns_desktop.Ipc.Frame.{write_msg}
use voindns_desktop.Ipc.Server.{Conn, again, handle_conn, update, recv_opt}
use voindns_desktop.Ipc.Server.Subscribers.{ChannelLaws, capacity}
use voindns_desktop.Ipc.Fixtures.{list_wire, list_channel, closing}
use voindns_desktop.Ipc.Fixtures.Codecs.{events, commands, put_event, checked}

pub recv_next :
    (n : ℕ) (tx : List Status) (s : Status)
    → get_elem? tx n ≡ some s
    → length tx ≤ n + capacity
    → (m : ℕ) × (list_channel.recv n tx ≡ some (ok s, m)) × (m ≡ suc n)
recv_next n tx s h near = (suc n, rw (h, list_channel) refl, refl)

abbrev pub list_channel-Laws : ChannelLaws list_channel
list_channel-Laws = record {
  position = λ n. n;
  position-subscribe = λ tx. refl;
  recv_next = recv_next;
}

-- One status has been broadcast since the client subscribed.
abbrev pub told : Example
told = record c0 { tx = status_disconnected ∷ [] }

abbrev pub watcher : Conn list_wire list_channel
watcher = record { r = closing []; w = []; subscription = some 0 }

abbrev pub watched : Conn list_wire list_channel
watched = record {
  r = closing [];
  w = 0 ∷ 0 ∷ 0 ∷ 5 ∷ 0 ∷ 0 ∷ 0 ∷ 0 ∷ 0 ∷ [];
  subscription = some 1;
}

pub watched_turn :
    handle_conn
      (linux_redirector logging_bus)
      one_port
      list_wire
      list_channel
      commands
      events
      (update 0)
      watcher
      told
    ≡ some (again watched, told)
unfolding handle_conn recv_opt write_msg put_event checked
watched_turn = refl
