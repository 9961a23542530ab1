-- ===== src/Gui/Window.antt =====
-- crates/gui/src-tauri/src/lib.rs: the tray icon, its menu, and the window that they show and hide.
pub mod Visibility
use voindns_desktop.Base.{
  ℕ, Option, none, some, Bool, true, false, Result, ok, err, Text, codes, text_eq, if◌then◌else◌,
}

-- What is used of tauri: the windows of an application, and its end.
pub record App : Type 1 where
  pub State : Type 0
  pub Window : Type 0
  pub Failure : Type 0
  pub get_webview_window : Text → State → Option Window
  pub is_visible : Window → State → Result Failure Bool
  pub show : Window → State → Result Failure (Unit {0}) × State
  pub unminimize : Window → State → Result Failure (Unit {0}) × State
  pub set_focus : Window → State → Result Failure (Unit {0}) × State
  pub hide : Window → State → Result Failure (Unit {0}) × State
  pub exit : ℕ → State → State

pub data MouseButton : Type 0 where
  left right middle : MouseButton

pub data MouseButtonState : Type 0 where
  up down : MouseButtonState

-- tauri's tray events; the ones that are no clicks are not told apart.
pub data TrayIconEvent : Type 0 where
  click : MouseButton → MouseButtonState → TrayIconEvent
  other : TrayIconEvent

-- `r.unwrap_or(default)`
abbrev pub unwrap_or : {E A : Type 0} → A → Result E A → A
unwrap_or default (ok a) = a
unwrap_or default (err e) = default

module _ (T : App) where
  bring_up : T.Window → T.State → T.State
  bring_up w s = (T.set_focus w (T.unminimize w (T.show w s).1).1).1

  unfoldable pub show_window : T.State → T.State
  unfolding bring_up
  show_window s = elim (T.get_webview_window (codes "main") s) [ none ↦ s | some w ↦ bring_up w s ]

  unfoldable pub toggle_window : T.State → T.State
  unfolding bring_up
  toggle_window s = elim (T.get_webview_window (codes "main") s) [
    | none ↦ s
    | some w ↦ if unwrap_or true (T.is_visible w s) then (T.hide w s).1 else bring_up w s
  ]

  -- the closure of `on_menu_event`, on the id of the item
  unfoldable pub on_menu_event : Text → T.State → T.State
  unfolding show_window
  on_menu_event id s =
      if text_eq id (codes "show")
      then show_window s
      else if text_eq id (codes "quit")
      then T.exit 0 s
      else s

  -- the closure of `on_tray_icon_event`
  unfoldable pub on_tray_icon_event : TrayIconEvent → T.State → T.State
  unfolding toggle_window
  on_tray_icon_event (click left up) s = toggle_window s
  on_tray_icon_event (click left down) s = s
  on_tray_icon_event (click right st) s = s
  on_tray_icon_event (click middle st) s = s
  on_tray_icon_event other s = s
