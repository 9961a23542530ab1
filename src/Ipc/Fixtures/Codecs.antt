-- ===== src/Ipc/Fixtures/Codecs.antt =====
-- Codecs of the two kinds of message that lose nothing.
use voindns_desktop.Base.{
  ℕ, zero, suc, ◌≡◌, refl, ◌<◌, ◌^◌, Option, none, some, [], ◌∷◌, ◌++◌, length, take, drop,
  take-append, drop-append, Result, ok, err, ◌>>=◌, Text, codes, ltb, if◌then◌else◌, arith,
}
use voindns_desktop.Proto.{
  UpstreamSel, voidns, cloudflare, google, quad9, custom, Command, connect, disconnect, get_status,
  subscribe, ping, ConnState, disconnected, connecting, connected, Status, Event, status, pong,
}
use voindns_desktop.Ipc.Wire.{Codec, IsLossless, Bytes}

abbrev malformed : Text
malformed = codes "malformed"

-- Refuses a message of 4 GiB.
unfoldable pub checked : Bytes → Result Text Bytes
checked b = if ltb (length b) (2 ^ 32) then ok b else err (codes "too long")

checked_lem : (b c : Bytes) → checked b ≡ ok c → (c ≡ b) × (length c < 2 ^ 32)
unfolding checked
checked_lem b c h = ground arith

put_text : Option Text → Bytes → Bytes
put_text none rest = 0 ∷ rest
put_text (some t) rest = suc (length t) ∷ (t ++ rest)

get_text : Bytes → Result Text (Option Text × Bytes)
get_text [] = err malformed
get_text (zero ∷ rest) = ok (none, rest)
get_text (suc n ∷ rest) = ok (some (take n rest), drop n rest)

get_text-put_text : (t : Option Text) (rest : Bytes) → get_text (put_text t rest) ≡ ok (t, rest)
unfolding get_text put_text
get_text-put_text none rest = refl
get_text-put_text (some t) rest = rw (take-append t rest, drop-append t rest)

put_state : ConnState → ℕ
put_state disconnected = 0
put_state connecting = 1
put_state connected = 2
put_state ConnState.error = 3

get_state : ℕ → ConnState
get_state zero = disconnected
get_state (suc zero) = connecting
get_state (suc (suc zero)) = connected
get_state (suc (suc (suc n))) = ConnState.error

get_state-put_state : (s : ConnState) → get_state (put_state s) ≡ s
unfolding get_state put_state
get_state-put_state disconnected = refl
get_state-put_state connecting = refl
get_state-put_state connected = refl
get_state-put_state ConnState.error = refl

put_status : Status → Bytes
unfolding put_state put_text
put_status s = put_state s.state ∷ put_text s.upstream (put_text s.listen (put_text s.error []))

get_status_bytes : ℕ → Bytes → Result Text Status
unfolding get_state get_text
get_status_bytes k bs = do
  (upstream, bs1) ← get_text bs
  (listen, bs2) ← get_text bs1
  (message, bs3) ← get_text bs2
  ok (record { state = get_state k; upstream = upstream; listen = listen; error = message })

get_status-put_status :
    (s : Status)
    → get_status_bytes
        (put_state s.state)
        (put_text s.upstream (put_text s.listen (put_text s.error [])))
      ≡ ok s
unfolding get_status_bytes
get_status-put_status s = rw (
  get_text-put_text s.upstream (put_text s.listen (put_text s.error [])),
  get_text-put_text s.listen (put_text s.error []),
  get_text-put_text s.error [],
  get_state-put_state s.state,
)

unfoldable pub put_event : Event → Bytes
unfolding put_status
put_event (status s) = 0 ∷ put_status s
put_event pong = 1 ∷ []
put_event (Event.error message) = 2 ∷ message

pub get_event : Bytes → Result Text Event
unfolding get_status_bytes
get_event (zero ∷ k ∷ rest) = do s ← get_status_bytes k rest; ok (status s)
get_event (suc zero ∷ rest) = ok pong
get_event (suc (suc n) ∷ rest) = ok (Event.error rest)
get_event _ = err malformed

get_event-put_event : (e : Event) → get_event (put_event e) ≡ ok e
unfolding get_event put_event
get_event-put_event (status s) = rw (get_status-put_status s)
get_event-put_event pong = refl
get_event-put_event (Event.error message) = refl

abbrev pub events : Codec Event
events = record { to_vec = λ e. checked (put_event e); from_slice = get_event }

pub events-IsLossless : IsLossless events
events-IsLossless = record {
  from_slice-to_vec = λ e b h. rw ((checked_lem (put_event e) b h).0) (get_event-put_event e);
}

pub events-IsSmall : (e : Event) (b : Bytes) → events.to_vec e ≡ ok b → length b < 2 ^ 32
events-IsSmall e b h = (checked_lem (put_event e) b h).1

put_upstream : UpstreamSel → Bytes
unfolding put_text
put_upstream voidns = []
put_upstream cloudflare = 0 ∷ []
put_upstream google = 1 ∷ []
put_upstream quad9 = 2 ∷ []
put_upstream (custom ip hostname path port) =
    3 ∷ port ∷ put_text (some ip) (put_text (some hostname) (put_text (some path) []))

unfoldable pub put_command : Command → Bytes
unfolding put_upstream
put_command ping = []
put_command get_status = 0 ∷ []
put_command subscribe = 1 ∷ []
put_command disconnect = 2 ∷ []
put_command (connect u) = 3 ∷ put_upstream u

custom_of : ℕ → Option Text → Option Text → Option Text → Result Text Command
custom_of port (some ip) (some hostname) (some path) = ok (connect (custom ip hostname path port))
custom_of port _ _ _ = err malformed

get_custom : ℕ → Bytes → Result Text Command
unfolding custom_of get_text
get_custom port bs = do
  (ip, bs1) ← get_text bs
  (hostname, bs2) ← get_text bs1
  (path, bs3) ← get_text bs2
  custom_of port ip hostname path

get_upstream : Bytes → Result Text Command
unfolding get_custom
get_upstream [] = ok (connect voidns)
get_upstream (zero ∷ rest) = ok (connect cloudflare)
get_upstream (suc zero ∷ rest) = ok (connect google)
get_upstream (suc (suc zero) ∷ rest) = ok (connect quad9)
get_upstream (suc (suc (suc n)) ∷ []) = err malformed
get_upstream (suc (suc (suc n)) ∷ port ∷ rest) = get_custom port rest

unfoldable pub get_command : Bytes → Result Text Command
unfolding get_upstream
get_command [] = ok ping
get_command (zero ∷ rest) = ok get_status
get_command (suc zero ∷ rest) = ok subscribe
get_command (suc (suc zero) ∷ rest) = ok disconnect
get_command (suc (suc (suc n)) ∷ rest) = get_upstream rest

get_custom-put_text :
    (ip hostname path : Text) (port : ℕ)
    → get_custom port (put_text (some ip) (put_text (some hostname) (put_text (some path) [])))
      ≡ ok (connect (custom ip hostname path port))
unfolding get_custom
get_custom-put_text ip hostname path port = rw (
  get_text-put_text (some ip) (put_text (some hostname) (put_text (some path) [])),
  get_text-put_text (some hostname) (put_text (some path) []),
  get_text-put_text (some path) [],
)

get_command-put_command : (c : Command) → get_command (put_command c) ≡ ok c
unfolding get_command put_command
get_command-put_command (connect voidns) = refl
get_command-put_command (connect cloudflare) = refl
get_command-put_command (connect google) = refl
get_command-put_command (connect quad9) = refl
get_command-put_command (connect (custom ip hostname path port)) =
    get_custom-put_text ip hostname path port
get_command-put_command disconnect = refl
get_command-put_command get_status = refl
get_command-put_command subscribe = refl
get_command-put_command ping = refl

abbrev pub commands : Codec Command
commands = record { to_vec = λ c. checked (put_command c); from_slice = get_command }

pub commands-IsLossless : IsLossless commands
commands-IsLossless = record {
  from_slice-to_vec = λ c b h. rw ((checked_lem (put_command c) b h).0) (get_command-put_command c);
}

pub commands-IsSmall : (c : Command) (b : Bytes) → commands.to_vec c ≡ ok b → length b < 2 ^ 32
commands-IsSmall c b h = (checked_lem (put_command c) b h).1
