-- ===== src/SidebarRight/Highlight.antt =====
-- The visibility that the sidebar dispatches, and the button in the channel header that shows it.
use mattermost_plugin_todo.Prelude.{true, false, List, [], ◌∷◌, ◌≡◌, refl, arith, All, ◌∙◌}
use mattermost_plugin_todo.Store.{Action, reducer}
use mattermost_plugin_todo.Client.Calls.{after_calls}
use mattermost_plugin_todo.SidebarRight.{
  Sidebar, SidebarEvent, dispatched, sidebar_step, sidebar_run, did_mount, will_unmount,
  handle_keypress,
}

-- Nothing but the sidebar's own life cycle dispatches its visibility.
abbrev pub IsOther : SidebarEvent → Type 0
IsOther (dispatched (Action.set_rhs_visible _)) = ⊥
IsOther _ = Unit

step-is_rhs_visible :
    (s : Sidebar) (e : SidebarEvent)
    → IsOther e
    → (sidebar_step s e).store.is_rhs_visible ≡ s.store.is_rhs_visible
unfolding sidebar_step reducer handle_keypress
step-is_rhs_visible s (dispatched (Action.set_rhs_visible v)) o = absurd o
step-is_rhs_visible s e o = ground arith

run-is_rhs_visible :
    (s : Sidebar) (events : List SidebarEvent)
    → All IsOther events
    → (sidebar_run s events).store.is_rhs_visible ≡ s.store.is_rhs_visible
unfolding sidebar_run
run-is_rhs_visible s [] o = refl
run-is_rhs_visible s (e ∷ rest) o =
    run-is_rhs_visible (sidebar_step s e) rest o.1 ∙ step-is_rhs_visible s e o.0

-- From the mounting of the sidebar on, whatever happens in it, `isRhsVisible` is true until it is
-- unmounted, and false then, as long as nothing else dispatches the visibility.
pub visible_while_mounted :
    (s : Sidebar) (events : List SidebarEvent)
    → All IsOther events
    → let mounted = record s { store = after_calls s.store did_mount } in
      let left = sidebar_run mounted events in
      (left.store.is_rhs_visible ≡ true)
      × ((after_calls left.store will_unmount).is_rhs_visible ≡ false)
unfolding did_mount will_unmount reducer
visible_while_mounted s events o =
    (run-is_rhs_visible (record s { store = after_calls s.store did_mount }) events o, refl)
