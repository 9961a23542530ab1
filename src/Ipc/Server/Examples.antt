-- ===== src/Ipc/Server/Examples.antt =====
-- The theorems on subscribed connections at a concrete one.
use voindns_desktop.Base.{
  map, drop, ◌++◌, ℕ, zero, suc, ap, sym, get_elem?, Option, ◌≡◌, refl, none, some, [], ◌∷◌, ok,
  err, from_io, suc, arith,
}
use voindns_desktop.Proto.{Status, status, status_disconnected}
use voindns_desktop.Redirect.Linux.{linux_redirector}
use voindns_desktop.Redirect.Linux.Fixtures.{logging_bus}
use voindns_desktop.Controller.Fixtures.{one_port}
use voindns_desktop.Ipc.Wire.{Bytes}
use voindns_desktop.Ipc.Frame.{write_msg}
use voindns_desktop.Ipc.Server.{Conn, again, returned, handle_conn, update, incoming, recv_opt}
use voindns_desktop.Ipc.Server.Subscribers.{Sending, updates_run-Encoded}
use voindns_desktop.Ipc.Server.Dropped.{update_drops_command}
use voindns_desktop.Ipc.Fixtures.{list_wire, list_wire-Laws, list_channel, closing}
use voindns_desktop.Ipc.Fixtures.Broadcast.{list_channel-Laws, told, watcher}
use voindns_desktop.Ipc.Fixtures.Codecs.{events, events-IsSmall, commands, put_event, checked}
use voindns_desktop.Ipc.Client.Next.{Encoded}

abbrev or_idle : Option Status → Status
or_idle none = status_disconnected
or_idle (some s) = s

write_idle : (w : Bytes) → (write_msg list_wire events (status status_disconnected) w).0 ≡ ok tt
unfolding write_msg put_event checked
write_idle w = refl

writes :
    (i : ℕ) (s : Status) (w : Bytes)
    → get_elem? told.tx i ≡ some s
    → (write_msg list_wire events (status s) w).0 ≡ ok tt
writes zero s w h = rw (sym (ap or_idle h)) (write_idle w)
writes (suc i) s w h = absurd cc

updates_run-Encoded_example :
    (conn' : Conn list_wire list_channel) × (rx' : list_channel.Receiver) × (bytes : Bytes)
    × Sending
        (linux_redirector logging_bus)
        one_port
        list_wire
        list_channel
        commands
        events
        told
        1
        watcher
        conn'
    × (conn'.subscription ≡ some rx')
    × (rx' ≡ 1)
    × (conn'.w ≡ watcher.w ++ bytes)
    × Encoded events (map status (drop 0 told.tx)) bytes
updates_run-Encoded_example =
    updates_run-Encoded (linux_redirector logging_bus) one_port list_wire list_channel commands
      events list_channel-Laws list_wire-Laws events-IsSmall told 1 watcher 0 refl refl
      (omega arith) writes

-- A command of five bytes, the first four of which read as a length of 1,633,837,924.
abbrev asking : Conn list_wire list_channel
asking = record {
  r = closing (0 ∷ 0 ∷ 0 ∷ 5 ∷ 97 ∷ 98 ∷ 99 ∷ 100 ∷ 101 ∷ []);
  w = [];
  subscription = some 0;
}

abbrev interrupted : Conn list_wire list_channel
interrupted = record {
  r = closing (97 ∷ 98 ∷ 99 ∷ 100 ∷ 101 ∷ []);
  w = 0 ∷ 0 ∷ 0 ∷ 5 ∷ 0 ∷ 0 ∷ 0 ∷ 0 ∷ 0 ∷ [];
  subscription = some 1;
}

interrupting_turn :
    handle_conn
      (linux_redirector logging_bus)
      one_port
      list_wire
      list_channel
      commands
      events
      (update 4)
      asking
      told
    ≡ some (again interrupted, told)
unfolding handle_conn recv_opt write_msg put_event checked
interrupting_turn = refl

update_drops_command_example :
    handle_conn
      (linux_redirector logging_bus)
      one_port
      list_wire
      list_channel
      commands
      events
      incoming
      interrupted
      told
    ≡ some (returned (err (from_io (closing []).last)), told)
update_drops_command_example =
    update_drops_command (linux_redirector logging_bus) one_port list_wire list_wire-Laws
      list_channel commands events asking interrupted told 97 98 99 100 (101 ∷ []) [] refl
      (omega arith) interrupting_turn
