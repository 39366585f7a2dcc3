-- ===== src/Page/Undoing.antt =====
-- Whom the toast's undo reaches.
use mattermost_plugin_todo.Page.{true, Page, item_event, press_undo, page_step, update_item}
use mattermost_plugin_todo.Prelude.{
  ◌∙◌, ap, All-append, String, false, ◌==◌, none, some, List, [], ◌∷◌, ◌++◌, ◌≡◌, refl, arith, All,
  eq_refl,
}
use mattermost_plugin_todo.TodoItem.{
  remove_timer, toast, Item, Handler, ItemEvent, click_delete, step, remove_todo, undo_remove,
}
use mattermost_plugin_todo.Data.{undo_remove_todo, ToastContent}
use mathlib.Core.List.{append_assoc}
use mattermost_plugin_todo.Browser.Timers.{set_timeout, clear_timeout}
use mattermost_plugin_todo.Store.{reducer}
use mattermost_plugin_todo.Client.Calls.{after_calls}
use mattermost_plugin_todo.TodoToast
use mattermost_plugin_todo.TodoToast.{Toast, rendered, toast_step}

-- No item of a list has the id.
abbrev pub Without : String → List Item → Type 0
Without id items = All (λ (i : Item). (i.issue.id == id) ≡ false) items

update_item-at :
    (f : Item → Handler) (before after : List Item) (i : Item)
    → Without i.issue.id before
    → update_item i.issue.id f (before ++ i ∷ after) ≡ (before ++ (f i).0 ∷ after, (f i).1)
unfolding update_item
update_item-at f [] after i w = rw (eq_refl i.issue.id) refl
update_item-at f (j ∷ before) after i w = rw (w.0, update_item-at f before after i w.1) refl

abbrev pub page : List Item → Toast → Page
page items toast = record { items = items; toast = toast }

-- The toast after the todo of an item was deleted.
abbrev deleted_toast : Item → Toast → Toast
deleted_toast i t = rendered (record t { store = after_calls t.store (remove_todo i).1 })

step-delete :
    (t : Toast) (before after : List Item) (i : Item)
    → Without i.issue.id before
    → page_step (page (before ++ i ∷ after) t) (item_event i.issue.id click_delete)
      ≡ page (before ++ (remove_todo i).0 ∷ after) (deleted_toast i t)
unfolding page_step step
step-delete t before after i w =
    rw (update_item-at (λ j. step j click_delete) before after i w) refl

deleted_toast-content :
    (t : Toast) (i : Item)
    → (deleted_toast i t).store.todo_toast
      ≡ some (toast "trash-can-outline" "Todo deleted" (undo_remove_todo i.issue.id))
unfolding remove_todo rendered reducer
deleted_toast-content t i = ground arith

closed-content :
    (t : Toast) (content : ToastContent)
    → t.store.todo_toast ≡ some content
    → (toast_step t TodoToast.press_undo).store.todo_toast ≡ none
unfolding toast_step reducer
closed-content t content h = ground (arith, h)

step-undo :
    (t : Toast) (before after : List Item) (i : Item) (icon message : String)
    → Without i.issue.id before
    → t.store.todo_toast ≡ some (toast icon message (undo_remove_todo i.issue.id))
    → let p = page_step (page (before ++ i ∷ after) t) press_undo in
      (p.items ≡ before ++ (undo_remove i).0 ∷ after) × (p.toast.store.todo_toast ≡ none)
unfolding page_step step
step-undo t before after i icon message w h = (
  rw
      (
        h,
        update_item-at (λ j. step j (ItemEvent.press_undo (undo_remove_todo i.issue.id))) before
            after i w,
      )
      refl,
  rw h (closed-content t (toast icon message (undo_remove_todo i.issue.id)) h),
)

-- An item whose todo was deleted: it is hidden, and its timer removes the todo in five seconds.
abbrev pub deleted_item : Item → Item
deleted_item i = record i {
  hidden = true;
  remove_timeout = some i.timers.next_id;
  timers = set_timeout remove_timer 5000 i.timers;
}

-- An item whose deletion was undone: it is shown, and that timer is cleared.
abbrev pub restored_item : Item → Item
restored_item i = record i {
  remove_timeout = some i.timers.next_id;
  timers = clear_timeout (some i.timers.next_id) (set_timeout remove_timer 5000 i.timers);
  hidden = false;
}

-- A todo with its item anywhere in the list is deleted, and then Undo is pressed in the toast: the
-- item is shown again with the timer of its removal cleared, all others are as they were, and the
-- toast is gone. No item before it has the same id.
pub undo_reaches :
    (t : Toast) (before after : List Item) (i : Item)
    → Without i.issue.id before
    → let p =
        page_step
          (page_step (page (before ++ i ∷ after) t) (item_event i.issue.id click_delete))
          press_undo in
      (p.items ≡ before ++ restored_item i ∷ after) × (p.toast.store.todo_toast ≡ none)
unfolding remove_todo undo_remove
undo_reaches t before after i w = rw (step-delete t before after i w) (
    step-undo (deleted_toast i t) before after (remove_todo i).0 "trash-can-outline" "Todo deleted"
      w (deleted_toast-content t i))

undo-none : (p : Page) → p.toast.store.todo_toast ≡ none → page_step p press_undo ≡ p
unfolding page_step
undo-none p h = rw h refl

abbrev pub delete_both : Item → Item → Page → Page
delete_both i j p =
    page_step (page_step p (item_event i.issue.id click_delete))
      (item_event j.issue.id click_delete)

module _ (t : Toast) (before mid after : List Item) (i j : Item) where
  abbrev deleted : List Item
  deleted = before ++ (remove_todo i).0 ∷ mid

  delete_both-page :
      Without i.issue.id before
      → Without j.issue.id deleted
      → delete_both i j (page (before ++ i ∷ (mid ++ j ∷ after)) t)
        ≡ page (deleted ++ (remove_todo j).0 ∷ after) (deleted_toast j (deleted_toast i t))
  delete_both-page w v =
      rw
        (
          step-delete t before (mid ++ j ∷ after) i w,
          ← append_assoc before ((remove_todo i).0 ∷ mid) (j ∷ after),
        )
        (step-delete (deleted_toast i t) deleted after j v)

  undone-both :
      Without i.issue.id before
      → Without j.issue.id deleted
      → let p =
          page_step (delete_both i j (page (before ++ i ∷ (mid ++ j ∷ after)) t)) press_undo in
        (p.items ≡ deleted ++ (undo_remove (remove_todo j).0).0 ∷ after)
        × (p.toast.store.todo_toast ≡ none)
  unfolding remove_todo
  undone-both w v = rw (delete_both-page w v) (
      step-undo (deleted_toast j (deleted_toast i t)) deleted after (remove_todo j).0
        "trash-can-outline" "Todo deleted" v (deleted_toast-content (deleted_toast i t) j))

  -- Two todos with different ids are deleted one after the other, and Undo is pressed twice: it
  -- reaches the second one only. The first one stays hidden, with the timer of its removal running.
  -- No item before either of them has its id.
  pub only_last_undone :
      Without i.issue.id before
      → Without j.issue.id before
      → Without j.issue.id mid
      → (i.issue.id == j.issue.id) ≡ false
      → let undone =
          page_step (delete_both i j (page (before ++ i ∷ (mid ++ j ∷ after)) t)) press_undo in
        (page_step undone press_undo).items
        ≡ before ++ deleted_item i ∷ (mid ++ restored_item j ∷ after)
  unfolding remove_todo undo_remove
  only_last_undone w b m ne =
      let (items, gone) = undone-both w (
        All-append (λ (x : Item). (x.issue.id == j.issue.id) ≡ false) before
          ((remove_todo i).0 ∷ mid) b (ne, m)) in
      ap (λ (p : Page). p.items) (undo-none _ gone)
      ∙ items
      ∙ append_assoc before ((remove_todo i).0 ∷ mid) ((undo_remove (remove_todo j).0).0 ∷ after)
