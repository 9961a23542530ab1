-- ===== src/Service/Program.antt =====
-- crates/voidns-service/src/main.rs: `main`, with the log that it sets up and the runtime that it
-- builds.
use voindns_desktop.Base.{
  Option, none, some, Bool, true, false, List, [], ◌∷◌, Result, ok, err, Error, IoError, Text,
  codes,
}
use voindns_desktop.Base.Io.{Io}
use voindns_desktop.Proto.{Command, Event}
use voindns_desktop.Service.{returned, Run, ctl, control, run, mode}

-- What tracing_subscriber and `OpenOptions` give: the filter of `RUST_LOG`, or the error that there
-- is none, and a file that is created or appended to.
pub record Tracing : Type 1 where
  pub State : Type 0
  pub Filter : Type 0
  pub File : Type 0
  pub env_filter : Option Filter
  pub new_filter : Text → Filter
  pub open_append : Text → Io State IoError File

module _ (T : Tracing) where
  -- `None` is the standard output.
  pub record Subscriber : Type 0 where
    pub filter : T.Filter
    pub with_ansi : Bool
    pub writer : Option T.File

  filter_or_info : Option T.Filter → T.Filter
  filter_or_info none = T.new_filter (codes "info")
  filter_or_info (some f) = f

  log_to : Result IoError T.File → Subscriber
  unfolding filter_or_info
  log_to (ok f) = record {
    filter = filter_or_info T.env_filter;
    with_ansi = false;
    writer = some f;
  }
  log_to (err e) = record { filter = filter_or_info T.env_filter; with_ansi = true; writer = none }

  -- `init_tracing`, where `log_file` is `VOIDNS_LOG_FILE`
  unfoldable pub init_tracing : Option Text → T.State → Subscriber × T.State
  unfolding log_to filter_or_info
  init_tracing none s =
      (record { filter = filter_or_info T.env_filter; with_ansi = true; writer = none }, s)
  init_tracing (some path) s = let (opened, s') = T.open_append path s in (log_to opened, s')

-- `block_on`, where `built` is what building the runtime gave
unfoldable pub block_on : Result Text (Unit {0}) → Run → Run
block_on (ok _) fut = fut
block_on (err e) fut = record {
  stdout = [];
  stderr = [];
  ended = returned (err (codes "build tokio runtime" ∷ e ∷ []));
}

module _ {A : Type 0} (built : Result Text (Unit {0})) (one_shot : Command → Result Error Event)
    (daemon : A → Result Error (Unit {0}) × A) where
  -- `main` behind `init_tracing`; `daemon` is `run`
  unfoldable pub main : List Text → A → Run × A
  unfolding block_on
  main args a = elim (mode args) [
    | err e ↦ (record { stdout = []; stderr = []; ended = returned (err e) }, a)
    | ok (control cmd) ↦ (block_on built (ctl cmd (one_shot cmd)), a)
    | ok run ↦
        let (result, a') = daemon a in
        (record { stdout = []; stderr = []; ended = returned result }, a')
  ]
