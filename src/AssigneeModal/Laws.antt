-- ===== src/AssigneeModal/Laws.antt =====
-- What the modal assigns, and what it leaves behind.
use mattermost_plugin_todo.Prelude.{
  refl, String, false, none, some, [], ◌∷◌, ◌≡◌, ◌≢◌, arith, eq_iff,
}
use mattermost_plugin_todo.AssigneeModal.{
  key_up, press_close_icon, press_cancel, true, Modal, select, press_assign, modal_step,
}
use mattermost_plugin_todo.Data.{User}
use mattermost_plugin_todo.Store.{reducer}
use mattermost_plugin_todo.Client.Calls
use mattermost_plugin_todo.Client.Calls.{Call, after_calls}

-- While a todo with an id is being edited, choosing a user and pressing Assign reassigns that todo
-- to the user, forgets the todo and closes the modal; the assignee of the add card stays as it was.
pub assign-edited :
    (m : Modal) (user : User) (id : String)
    → m.store.editing_todo ≡ some id
    → id ≢ ""
    → let m' = modal_step (modal_step m (select (some user))) press_assign in
      (m'.calls
        ≡ Calls.change_assignee id user.username
          ∷ Calls.remove_editing_todo
          ∷ Calls.close_assignee_modal
          ∷ [])
      × (m'.store.editing_todo ≡ none)
      × (m'.store.assignee_modal_visible ≡ false)
      × (m'.store.current_assignee ≡ m.store.current_assignee)
unfolding modal_step reducer
assign-edited m user id e ne = ground (arith, eq_iff id "")

-- With no todo being edited, choosing a user and pressing Assign sets the assignee of the add card,
-- sends nothing and closes the modal.
pub assign-new :
    (m : Modal) (user : User)
    → m.store.editing_todo ≡ none
    → let m' = modal_step (modal_step m (select (some user))) press_assign in
      (m'.calls ≡ Calls.get_assignee user ∷ Calls.close_assignee_modal ∷ [])
      × (m'.store.current_assignee ≡ some user)
      × (m'.store.assignee_modal_visible ≡ false)
      × (m'.store.editing_todo ≡ none)
unfolding modal_step reducer
assign-new m user e = ground arith

-- Cancel and the close icon forget the edited todo and change nothing else but the visibility.
pub cancel-forgets :
    (m : Modal)
    → ((modal_step m press_cancel).store
        ≡ record m.store { editing_todo = none; assignee_modal_visible = false })
      × (modal_step m press_close_icon ≡ modal_step m press_cancel)
unfolding modal_step reducer
cancel-forgets m = (refl, refl)

-- Closed by Escape while a todo with an id is being edited, the modal still remembers it: opened
-- again for a new todo, it reassigns the old one and leaves the assignee of the add card as it was.
pub escape-then-assign :
    (m : Modal) (user : User) (id : String)
    → m.store.editing_todo ≡ some id
    → id ≢ ""
    → m.store.assignee_modal_visible ≡ true
    → let closed = modal_step m (key_up "Escape") in
      let reopened = record closed {
        store = after_calls closed.store (Calls.open_assignee_modal ∷ []);
      } in
      let m' = modal_step (modal_step reopened (select (some user))) press_assign in
      (closed.store.assignee_modal_visible ≡ false)
      × (m'.calls
          ≡ Calls.change_assignee id user.username
            ∷ Calls.remove_editing_todo
            ∷ Calls.close_assignee_modal
            ∷ [])
      × (m'.store.current_assignee ≡ m.store.current_assignee)
unfolding modal_step reducer
escape-then-assign m user id e ne v = ground (arith, eq_iff id "", e, v)

-- The user chosen at the last opening is still chosen at the next one, for another todo with an id:
-- pressing Assign at once reassigns that todo to the user.
pub assign-stale :
    (m : Modal) (user : User) (id other : String)
    → m.store.editing_todo ≡ some id
    → other ≢ ""
    → let m' = modal_step (modal_step m (select (some user))) press_assign in
      let reopened = record m' {
        store =
            after_calls m'.store (Calls.open_assignee_modal ∷ Calls.set_editing_todo other ∷ []);
      } in
      (modal_step reopened press_assign).calls
      ≡ Calls.change_assignee other user.username
        ∷ Calls.remove_editing_todo
        ∷ Calls.close_assignee_modal
        ∷ []
unfolding modal_step reducer
assign-stale m user id other e ne = ground (arith, eq_iff id "", eq_iff other "")
