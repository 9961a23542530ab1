-- ===== src/Gui/Window/Visibility.antt =====
-- The window follows what the user does with the tray.
use voindns_desktop.Base.{
  ℕ, ◌≡◌, refl, ◌∙◌, ap, Option, some, Bool, true, false, not, Bool-cases, inl, inr, List, [], ◌∷◌,
  ok, Text, codes, text_eq, if◌then◌else◌,
}
use voindns_desktop.Gui.Window.{
  App, left, right, middle, up, down, TrayIconEvent, click, other, show_window, toggle_window,
  on_menu_event, on_tray_icon_event,
}

-- What the user does.
pub data Act : Type 0 where
  menu : Text → Act
  tray : TrayIconEvent → Act

-- What is seen of the application: whether its window is shown, and its exit code, if it was left.
pub record View : Type 0 where
  pub visible : Bool
  pub exited : Option ℕ

-- What each act means.
abbrev pub toggles : TrayIconEvent → Bool
toggles (click left up) = true
toggles (click left down) = false
toggles (click right st) = false
toggles (click middle st) = false
toggles other = false

abbrev pub meant : Act → View → View
meant (tray e) v = if toggles e then record v { visible = not v.visible } else v
meant (menu id) v =
    if text_eq id (codes "show")
    then record v { visible = true }
    else if text_eq id (codes "quit")
    then record v { exited = some 0 }
    else v

abbrev pub all_meant : List Act → View → View
all_meant [] v = v
all_meant (a ∷ acts) v = all_meant acts (meant a v)

-- Documented behaviour of tauri on a desktop where the window "main" exists and the calls are obeyed.
pub record WindowLaws (T : App) : Type 0 where
  pub main : T.Window
  pub view : T.State → View
  pub found : (s : T.State) → T.get_webview_window (codes "main") s ≡ some main
  pub is_visible-view : (s : T.State) → T.is_visible main s ≡ ok (view s).visible
  pub view-show : (s : T.State) → view (T.show main s).1 ≡ record (view s) { visible = true }
  pub view-unminimize : (s : T.State) → view (T.unminimize main s).1 ≡ view s
  pub view-set_focus : (s : T.State) → view (T.set_focus main s).1 ≡ view s
  pub view-hide : (s : T.State) → view (T.hide main s).1 ≡ record (view s) { visible = false }
  pub view-exit : (n : ℕ) (s : T.State) → view (T.exit n s) ≡ record (view s) { exited = some n }

module _ (T : App) (L : WindowLaws T) where
  abbrev pub act : Act → T.State → T.State
  act (menu id) s = on_menu_event T id s
  act (tray e) s = on_tray_icon_event T e s

  abbrev pub act_all : List Act → T.State → T.State
  act_all [] s = s
  act_all (a ∷ acts) s = act_all acts (act a s)

  show_window-view : (s : T.State) → L.view (show_window T s) ≡ record (L.view s) { visible = true }
  unfolding show_window
  show_window-view s =
      rw (L.found s, show_window)
        (L.view-set_focus (T.unminimize L.main (T.show L.main s).1).1
          ∙ L.view-unminimize (T.show L.main s).1
          ∙ L.view-show s)

  toggle_window-view :
      (s : T.State)
      → L.view (toggle_window T s) ≡ record (L.view s) { visible = not (L.view s).visible }
  unfolding toggle_window show_window
  toggle_window-view s = elim (Bool-cases (L.view s).visible) [
    | inl shown ↦ rw (L.found s, L.is_visible-view s, shown, toggle_window) (L.view-hide s)
    | inr hidden ↦
        rw (L.found s, L.is_visible-view s, hidden, toggle_window)
          (L.view-set_focus (T.unminimize L.main (T.show L.main s).1).1
            ∙ L.view-unminimize (T.show L.main s).1
            ∙ L.view-show s)
  ]

  act-meant : (a : Act) (s : T.State) → L.view (act a s) ≡ meant a (L.view s)
  unfolding on_menu_event on_tray_icon_event
  act-meant (tray (click left up)) s = toggle_window-view s
  act-meant (tray (click left down)) s = refl
  act-meant (tray (click right st)) s = refl
  act-meant (tray (click middle st)) s = refl
  act-meant (tray other) s = refl
  act-meant (menu id) s = elim (Bool-cases (text_eq id (codes "show"))) [
    | inl t ↦ rw (t, on_menu_event) (show_window-view s)
    | inr f ↦ elim (Bool-cases (text_eq id (codes "quit"))) [
      | inl t ↦ rw (f, t, on_menu_event) (L.view-exit 0 s)
      | inr g ↦ rw (f, g, on_menu_event) refl
    ]
  ]

  -- With a window that obeys, any sequence of menu and tray events leaves it as a machine of two
  -- fields says: a click of the left button, when it is released, inverts the visibility, the
  -- menu's Show shows the window, Quit ends the program with code 0, and every other event changes
  -- nothing.
  pub act_all-meant :
      (acts : List Act) (s : T.State) → L.view (act_all acts s) ≡ all_meant acts (L.view s)
  act_all-meant [] s = refl
  act_all-meant (a ∷ acts) s = act_all-meant acts (act a s) ∙ ap (all_meant acts) (act-meant a s)
