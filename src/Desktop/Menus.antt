-- ===== src/Desktop/Menus.antt =====
-- apps/desktop-app/main.js: the menu of the application, on macOS and elsewhere. A handler of a click
-- is `Main.quit`, the only one that the menu has.
use concordia_chat_app.Prelude.{
  ◌≡◌, refl, Bool, true, false, ◌&&◌, Option, none, some, List, [], ◌∷◌, ◌++◌, String,
}
use concordia_chat_app.Prelude.Lists.{every}
use concordia_chat_app.Prelude.Tests.{if◌then◌else◌}

-- An entry: one of Electron's roles, with an accelerator of its own or not; a line; or the entry
-- "Quit" with its accelerator.
pub data Item : Type 0 where
  role : String → Option String → Item
  separator : Item
  quit_item : String → Item

pub record Menu : Type 0 where
  pub label : String
  pub submenu : List Item

abbrev pub of_role : String → Item
of_role r = role r none

-- The constant `template`; `name` is `app.name`.
unfoldable pub app_menu : String → Menu
app_menu name = record {
  label = name;
  submenu =
      of_role "about"
      ∷ separator
      ∷ of_role "services"
      ∷ separator
      ∷ of_role "hide"
      ∷ of_role "hideOthers"
      ∷ of_role "unhide"
      ∷ separator
      ∷ quit_item "Command+Q"
      ∷ [];
}

unfoldable pub file_menu : Bool → Menu
file_menu is_mac = record {
  label = "File";
  submenu = (if is_mac then of_role "close" else quit_item "Ctrl+Q") ∷ [];
}

unfoldable pub edit_menu : Bool → Menu
edit_menu is_mac = record {
  label = "Edit";
  submenu =
      (of_role "undo"
        ∷ of_role "redo"
        ∷ separator
        ∷ of_role "cut"
        ∷ of_role "copy"
        ∷ of_role "paste"
        ∷ [])
      ++ (if is_mac
          then of_role "pasteAndMatchStyle" ∷ of_role "delete" ∷ of_role "selectAll" ∷ []
          else of_role "delete" ∷ separator ∷ of_role "selectAll" ∷ []);
}

unfoldable pub view_menu : Menu
view_menu = record {
  label = "View";
  submenu =
      of_role "reload"
      ∷ of_role "forceReload"
      ∷ role "toggleDevTools" (some "CommandOrControl+Shift+I")
      ∷ separator
      ∷ of_role "resetZoom"
      ∷ of_role "zoomIn"
      ∷ of_role "zoomOut"
      ∷ separator
      ∷ of_role "togglefullscreen"
      ∷ [];
}

unfoldable pub window_menu : Bool → Menu
window_menu is_mac = record {
  label = "Window";
  submenu =
      (of_role "minimize" ∷ of_role "zoom" ∷ [])
      ++ (if is_mac then separator ∷ of_role "front" ∷ [] else of_role "close" ∷ []);
}

unfoldable pub template : Bool → String → List Menu
unfolding app_menu file_menu edit_menu view_menu window_menu
template is_mac name =
    (if is_mac then app_menu name ∷ [] else [])
    ++ (file_menu is_mac ∷ edit_menu is_mac ∷ view_menu ∷ window_menu is_mac ∷ [])

-- The entries "Quit" of a list, and of all menus.
abbrev pub quits_of : List Item → List String
quits_of [] = []
quits_of (quit_item k ∷ is) = k ∷ quits_of is
quits_of (role r k ∷ is) = quits_of is
quits_of (separator ∷ is) = quits_of is

abbrev pub all_quits : List Menu → List String
all_quits [] = []
all_quits (m ∷ ms) = quits_of m.submenu ++ all_quits ms

-- No line stands first, last or beside another; the flag tells that an entry has just been passed.
abbrev pub is_tidy : Bool → List Item → Bool
is_tidy after [] = after
is_tidy after (separator ∷ is) = after && is_tidy false is
is_tidy after (role r k ∷ is) = is_tidy true is
is_tidy after (quit_item k ∷ is) = is_tidy true is

-- On either platform the menu has exactly one "Quit", with that platform's accelerator, and in each
-- submenu, none of which is empty, no line stands first, last or beside another.
pub template_lem :
    (is_mac : Bool) (name : String)
    → (all_quits (template is_mac name) ≡ (if is_mac then "Command+Q" else "Ctrl+Q") ∷ [])
      × (every (λ (m : Menu). is_tidy false m.submenu) (template is_mac name) ≡ true)
unfolding template
template_lem true name = (refl, refl)
template_lem false name = (refl, refl)
