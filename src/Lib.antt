-- ===== src/Lib.antt =====
-- The Todo plugin for Mattermost: its webapp (webapp/src), as a model in which the components run
-- on concrete states and events, and the lists of its server (server/).
--
-- The plugin keeps one slice of the host's Redux store. The user's actions reach the components,
-- which keep hooks and timers of their own and call action creators; those dispatch plain actions
-- to the slice, or send requests to the plugin's server, whose answers come back as actions. The
-- server's websocket events and the browser's clicks make the plugin ask for the lists again.
--
-- Files, with the code they model:
--   * Prelude: shared tests, lists and lemmas. Result: a value or what was thrown. Data: the values
--     that the components pass on. An undo closure is data: the todo and which of two it undoes.
--   * Store: webapp/src/reducer.js, a function by clauses for each slice. Store/ActionTypes:
--     action_types.js. Store/Selectors: selectors.js, over the part of the host's state that the
--     plugin reads. Store/Order and Store/AddCard: theorems on sequences of actions.
--   * Client: actions.js. A thunk is a function on the host's state and the requests sent so far.
--     The browser, the server and the host are the record Host, an argument throughout: its
--     `fetch` may answer or reject as it likes, and may depend on all earlier requests.
--     What `/list` answers is the data type Received: todos, or the object of an error.
--     Client/Calls: the action creators that only dispatch, and all of them bound to dispatch.
--     Client/Lists, Client/Posts and Client/Sync: what is sent, what is stored, and what the
--     components may rely on.
--     Client/InFlight: answers that arrive later, in any order, as a relation between states.
--   * Utils: utils.js (permissions, class names, names, keys, the selection of inputs, clicks on
--     links, colours) and the key codes of constants.jsx.
--   * Browser: setTimeout and clearTimeout over a clock in milliseconds, whose pending timers fire
--     once they are due, in any order; and the tree of elements that a component renders.
--   * Widgets: webapp/src/widget, components/buttons and components/icons.
--   * TodoItem: components/todo_item and components/todo_issues. An item is its hooks, its refs
--     and its timers; `step` is what one event does, `run` what a schedule of events does.
--   * AddIssue, AssigneeModal, SidebarRight, LeftSidebar (sidebar_buttons and team_sidebar),
--     PostTypeTodo, Root: the components of these names. TodoToast: widget/todo_toast.
--   * Page: the items of a page with the toast that they share.
--   * Modals: components/modals, close_icon.jsx, components/user_selector and
--     components/channel_header_button.
--   * Plugin: index.js, what it registers and dispatches, as data.
--   * Server: server/issue.go and the keys of server/list.go. Server/Keys, Server/Edits and
--     Server/Store: server/store.go. Edits holds what the loop of each operation does to a list,
--     with RemoveReference's loop step by step over the array that it shortens; Store holds the
--     rounds of reading, editing and compare-and-set. Server/Lists (add, send, read) and
--     Server/Moves (complete, remove, pop, edit, reassign, accept, bump): server/list.go.
--     Server/Preferences and Server/Decimal: the preferences and the reminder time of
--     server/store.go, with what they use of strconv. An operation is an Action: a function on
--     the state outside the request, which returns a value, returns an error, or panics.
--     Server/Commands: how server/command.go reads the text of a slash command.
--     Server/Commands/Settings: its runSettingsCommand, as what is posted or returned as an error.
--     Server/Api: the plugin API, which is not in this repository, as the parameter Api. IsApi
--     states what its calls do while other requests change the store between them; IsQuiet,
--     in Server/Quiet, what they do while no other request runs and no call fails. Server/Store
--     has the theorems over the first, Server/Quiet those over the second.
--   * Examples: concrete states, and the theorems applied to them.
--
-- Conventions: numbers are natural numbers; times are milliseconds, and the subtraction of the
-- idle time stops at 0, where the source gets a negative number, which is below the timeout as
-- well. The one fuel is that of the decimal text of a number n, which is n itself and so at least
-- the number of its digits. The loops of the webapp are over lists; those of the list store run at
-- most three rounds, as StoreRetries says. A text field that the server leaves out is the empty
-- text, since the webapp only reads such fields for their truth or prints them. Handlers return
-- the calls they make; Client/Sync relates these to the thunks.
--
-- Not modelled: the headers of the requests; style sheets and animations; how react-select loads
-- and keeps its options; the build files. The webapp meets the server through Host, not through
-- Server. Of the server, not modelled: its HTTP handlers (server/plugin.go), what the handlers of
-- the slash commands do with their arguments, but for the settings, posts of the bot and
-- telemetry; a stored text is modelled by what encoding/json reads in it.
pub mod Prelude
pub mod Data
pub mod Result
pub mod Store
pub mod Client
pub mod Utils
pub mod Browser
pub mod TodoItem
pub mod Widgets
pub mod AssigneeModal
pub mod AddIssue
pub mod SidebarRight
pub mod TodoToast
pub mod Plugin
pub mod LeftSidebar
pub mod PostTypeTodo
pub mod Root
pub mod Modals
pub mod Page
pub mod Server
pub mod Examples
