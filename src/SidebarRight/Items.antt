-- ===== src/SidebarRight/Items.antt =====
-- Which todos the sidebar shows.
use mattermost_plugin_todo.Prelude.{
  String, Bool, true, false, ◌&&◌, ◌||◌, ◌==◌, List, [], ◌∷◌, ◌++◌, map, ◌≡◌, refl, arith,
  if◌then◌else◌, Bool-cases, inl, inr,
}
use mathlib.Core.List.{append-nil, append_assoc}
use mattermost_plugin_todo.Data.{Issue, Received, listed, refused}
use mattermost_plugin_todo.Browser.View.{Node, Nodes, el, text, when, children, element, end, child}
use mattermost_plugin_todo.TodoItem.Render.{is_empty, has_todos, todos_in, todo_issues}
use mattermost_plugin_todo.SidebarRight.{SidebarProps, SidebarState, SidebarEvent}
use mattermost_plugin_todo.SidebarRight.Render.{
  render, lists, inbox, separator, header, todos_of, inbox_of,
}

-- The attributes of the todo items of a tree, in the order of the page.
unfoldable mutual
  pub items : {H : Type 0} → Node H → List (List (String × String))
  items (text s) = []
  items (element tag attributes handlers content) =
      if tag == "TodoItem" then attributes ∷ items_below content else items_below content

  pub items_below : {H : Type 0} → Nodes H → List (List (String × String))
  items_below end = []
  items_below (child x rest) = items x ++ items_below rest

-- The items of a list of todos.
abbrev pub items_of_all : String → List Issue → List (List (String × String))
items_of_all list [] = []
items_of_all list (issue ∷ rest) =
    (("issue", issue.id) ∷ ("list", list) ∷ ("key", issue.id) ∷ []) ∷ items_of_all list rest

-- The items of what was received; the object of an error has none.
abbrev pub items_of : String → Received → List (List (String × String))
items_of list received = items_of_all list (todos_in received)

items_below-append :
    {H : Type 0} (xs ys : List (Node H))
    → items_below (children (xs ++ ys)) ≡ items_below (children xs) ++ items_below (children ys)
unfolding items
items_below-append [] ys = refl
items_below-append (x ∷ xs) ys =
    rw
      (
        items_below-append xs ys,
        append_assoc (items x) (items_below (children xs)) (items_below (children ys)),
      )
      refl

abbrev item_node : {H : Type 0} → String → Issue → Node H
item_node list issue =
    el "TodoItem" (("issue", issue.id) ∷ ("list", list) ∷ ("key", issue.id) ∷ []) [] []

items_below-map :
    (H : Type 0) (list : String) (issues : List Issue)
    → items_below {H = H} (children (map (item_node list) issues)) ≡ items_of_all list issues
unfolding items
items_below-map H list [] = refl
items_below-map H list (x ∷ rest) = rw (items_below-map H list rest) refl

items_below-todo_issues :
    (H : Type 0) (add_visible : Bool) (list : String) (issues : Received)
    → items_below {H = H} (children (todo_issues add_visible list issues)) ≡ items_of list issues
unfolding items todo_issues
items_below-todo_issues H true list (listed []) = refl
items_below-todo_issues H false list (listed []) = refl
items_below-todo_issues H true list (refused e d) = refl
items_below-todo_issues H false list (refused e d) = refl
items_below-todo_issues H b list (listed (x ∷ rest)) = items_below-map H list (x ∷ rest)

items_below-inbox :
    (add_visible : Bool) (state : SidebarState) (inbox_list : Received)
    → items_below (children (inbox add_visible state inbox_list))
      ≡ (if state.show_inbox then items_of "in" inbox_list else [])
unfolding items inbox
items_below-inbox b state (listed []) = ground arith
items_below-inbox b state (refused e d) = ground arith
items_below-inbox b state (listed (x ∷ rest)) = elim (Bool-cases state.show_inbox) [
  | inl e ↦ rw (e, items_below-map SidebarEvent "in" rest, append-nil (items_of_all "in" rest)) refl
  | inr e ↦ rw e refl
]

items_below-separator :
    (state : SidebarState) (inbox_list todos : Received)
    → items_below (children (separator state inbox_list todos)) ≡ []
unfolding items separator
items_below-separator state (listed []) todos = refl
items_below-separator state (refused e d) todos = refl
items_below-separator state (listed (x ∷ rest)) (listed []) = refl
items_below-separator state (listed (x ∷ rest)) (refused e d) = refl
items_below-separator state (listed (x ∷ rest)) (listed (y ∷ todos)) = refl

below_inbox :
    (add_visible : Bool) (state : SidebarState) (todos : Received)
    → items_below {H = SidebarEvent} (
        children
          (when (state.show_my && has_todos todos) (todo_issues add_visible state.list todos)))
      ≡ (if state.show_my then items_of state.list todos else [])
unfolding items
below_inbox b state (listed []) = ground arith
below_inbox b state (refused e d) = ground arith
below_inbox b state (listed (y ∷ todos)) = elim (Bool-cases state.show_my) [
  | inl e ↦ rw e (items_below-todo_issues SidebarEvent b state.list (listed (y ∷ todos)))
  | inr e ↦ rw e refl
]

-- The todos of the list below the inbox are there exactly if they are not folded away, and they
-- can be folded only below an inbox.
items_below-main :
    (add_visible : Bool) (state : SidebarState) (inbox_list todos : Received)
    → items_below {H = SidebarEvent} (
        children (
          when
            (is_empty inbox_list || (state.show_my && has_todos todos))
            (todo_issues add_visible state.list todos)))
      ≡ (if is_empty inbox_list || state.show_my then items_of state.list todos else [])
unfolding items
items_below-main b state (listed []) todos = items_below-todo_issues SidebarEvent b state.list todos
items_below-main b state (listed (x ∷ rest)) todos = below_inbox b state todos
items_below-main b state (refused e d) todos = below_inbox b state todos

-- The header and the toast hold no todo.
items-header : (state : SidebarState) → items (header state) ≡ []
unfolding items header
items-header state = ground arith

items_below-header :
    (a b c : List (Node SidebarEvent)) {x z : List (List (String × String))}
    → items_below (children a) ≡ x
    → items_below (children b) ≡ []
    → items_below (children c) ≡ z
    → items_below (children (a ++ b ++ el "AddIssue" [] [] [] ∷ c)) ≡ x ++ z
unfolding items
items_below-header a b c {x} e f g =
    rw
      (
        items_below-append (a ++ b) (el "AddIssue" [] [] [] ∷ c),
        items_below-append a b,
        e,
        f,
        g,
        append-nil x,
      )
      refl

items-page :
    (h : Node SidebarEvent) (content : List (Node SidebarEvent)) (toast : Bool)
    {x : List (List (String × String))}
    → items h ≡ []
    → items_below (children content) ≡ x
    → items (
        el "Scrollbars"
          (("autoHide", "true")
            ∷ ("autoHideTimeout", "500")
            ∷ ("autoHideDuration", "500")
            ∷ ("className", "SidebarRight")
            ∷ [])
          []
          (h ∷ el "div" [] [] content ∷ when toast (el "TodoToast" [] [] [] ∷ [])))
      ≡ x
unfolding items
items-page h content true {x} e f = rw (e, f) (append-nil x)
items-page h content false {x} e f = rw (e, f) (append-nil x)

-- The todos that the sidebar shows, in order: first those of the inbox, which is empty unless "My
-- Todos" is chosen, if the inbox is not folded; then those of the chosen list, which are left out
-- only if they are folded and the inbox is not the empty list. A list in whose place the object
-- of an error is stored shows no todos.
pub items-render :
    (add_visible : Bool) (props : SidebarProps) (state : SidebarState)
    → items (render add_visible props state)
      ≡ (if state.show_inbox then items_of "in" (inbox_of props state.list) else [])
        ++ (if is_empty (inbox_of props state.list) || state.show_my
            then items_of state.list (todos_of props state.list)
            else [])
unfolding render lists
items-render add_visible props state = items-page (header state) _ _ (items-header state) (
    items_below-header _ _ _ (items_below-inbox add_visible state (inbox_of props state.list))
      (items_below-separator state (inbox_of props state.list) (todos_of props state.list))
      (items_below-main add_visible state (inbox_of props state.list) (todos_of props state.list)))
