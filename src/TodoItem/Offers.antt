-- ===== src/TodoItem/Offers.antt =====
-- Which handlers a rendered todo item offers.
use mathlib.Core.List.{append-nil, append_assoc}
use mattermost_plugin_todo.Widgets.{complete_button}
use mattermost_plugin_todo.Prelude.{
  ◌∙◌, ℕ, String, Bool, true, false, not, ◌&&◌, ◌||◌, ◌≡◌, List, [], ◌∷◌, ◌++◌, arith, nat_eq, refl,
}
use mattermost_plugin_todo.Browser.View.{Node, offered, el, when}
use mattermost_plugin_todo.Utils.Permissions.{can_remove, can_complete, can_accept, can_bump}
use mattermost_plugin_todo.TodoItem.{Item}
use mattermost_plugin_todo.TodoItem.Dates.{LocalDate}
use mattermost_plugin_todo.TodoItem.Render.{
  ItemHandler, handle_click, on_key_down, set_message, set_description, mark_done, accept_issue,
  bump_issue, start_edit, assign, delete, cancel, save, render, item_class, todo_text, item_menu,
  editor, edit_buttons,
}

-- The handlers that an item should offer, by its mode and its lists.
pub allowed : Item → ItemHandler → Bool
allowed i handle_click = not i.edit_todo
allowed i on_key_down = i.edit_todo
allowed i set_message = i.edit_todo
allowed i set_description = i.edit_todo
allowed i mark_done = can_complete i.list
allowed i accept_issue = not i.edit_todo && can_accept i.list
allowed i bump_issue = not i.edit_todo && can_bump i.list i.issue.list
allowed i start_edit = not i.edit_todo
allowed i assign = not i.edit_todo
allowed i delete = not i.edit_todo && can_remove i.list i.issue.list
allowed i cancel = i.edit_todo
allowed i save = i.edit_todo

abbrev index : ItemHandler → ℕ
index handle_click = 0
index on_key_down = 1
index set_message = 2
index set_description = 3
index mark_done = 4
index accept_issue = 5
index bump_issue = 6
index start_edit = 7
index assign = 8
index delete = 9
index cancel = 10
index save = 11

abbrev pub among : ItemHandler → List (String × ItemHandler) → Bool
among h [] = false
among h ((name, k) ∷ rest) = nat_eq (index h) (index k) || among h rest

among-append :
    (h : ItemHandler) (xs ys : List (String × ItemHandler))
    → among h (xs ++ ys) ≡ (among h xs || among h ys)
among-append h [] ys = refl
among-append h ((name, k) ∷ xs) ys = ground (arith, among-append h xs ys)

module _ (site_url : String) (created : LocalDate) (i : Item) (h : ItemHandler) where
  in_text :
      among h (offered (todo_text site_url created i))
      ≡ (nat_eq (index h) 0 || (nat_eq (index h) 5 && can_accept i.list))
  unfolding todo_text offered
  in_text = ground arith

  in_menu : among h (offered (item_menu i)) ≡ (
      (nat_eq (index h) 5 && can_accept i.list)
      || (nat_eq (index h) 6 && can_bump i.list i.issue.list)
      || nat_eq (index h) 7
      || nat_eq (index h) 8
      || (nat_eq (index h) 9 && can_remove i.list i.issue.list))
  unfolding item_menu offered
  in_menu = ground arith

  in_editor :
      among h (offered (editor i))
      ≡ (nat_eq (index h) 1 || nat_eq (index h) 2 || nat_eq (index h) 3)
  unfolding editor offered
  in_editor = ground arith

  in_edit_buttons : among h (offered edit_buttons) ≡ (nat_eq (index h) 10 || nat_eq (index h) 11)
  unfolding edit_buttons offered
  in_edit_buttons = ground arith

-- The frame of an item around its parts.
frame :
    (h : ItemHandler) (key class_name : String) (c e : Bool)
    (mark edit txt mnu buttons : Node ItemHandler)
    → among h (
        offered (
          el "div" (("key", key) ∷ ("className", class_name) ∷ []) [] (
            el "div" [] [] (
              el "div" (("className", "todo-item__content") ∷ []) [] (
                when c (mark ∷ [])
                ++ el "div" [] [] (when e (edit ∷ []) ++ when (not e) (txt ∷ [])) ∷ [])
              ∷ when (not e) (mnu ∷ []))
            ∷ when e (buttons ∷ []))))
      ≡ ((c && among h (offered mark))
          || (e && (among h (offered edit) || among h (offered buttons)))
          || (not e && (among h (offered txt) || among h (offered mnu))))
unfolding offered
frame h key class_name true true mark edit txt mnu buttons =
    simp (append-nil, append_assoc, among-append) (ground arith)
frame h key class_name true false mark edit txt mnu buttons =
    simp (append-nil, append_assoc, among-append) (ground arith)
frame h key class_name false true mark edit txt mnu buttons =
    simp (append-nil, among-append) (ground arith)
frame h key class_name false false mark edit txt mnu buttons =
    simp (append-nil, among-append) (ground arith)

in_mark :
    (h : ItemHandler) (done : Bool)
    → among h (offered (complete_button done mark_done)) ≡ nat_eq (index h) 4
unfolding complete_button offered
in_mark h done = ground arith

-- A rendered todo item offers a handler exactly if it should: while it is edited, the fields, Save
-- and Cancel; otherwise the links of its text, Edit and Assign, and Accept, Bump and Delete as far
-- as its lists permit them; and in both cases the complete button if its list permits it.
pub offered-allowed :
    (site_url : String) (created : LocalDate) (i : Item) (h : ItemHandler)
    → among h (offered (render site_url created i)) ≡ allowed i h
unfolding render allowed
offered-allowed site_url created i h =
    frame h i.issue.id (item_class i) (can_complete i.list) i.edit_todo
      (complete_button i.done mark_done) (editor i) (todo_text site_url created i) (item_menu i)
      edit_buttons
    ∙ ground (
      arith,
      in_mark h i.done,
      in_text site_url created i h,
      in_menu site_url created i h,
      in_editor site_url created i h,
      in_edit_buttons site_url created i h,
    )
