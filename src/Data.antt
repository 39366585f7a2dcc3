-- ===== src/Data.antt =====
-- The values that the webapp passes around: todos as the server sends them (server/issue.go's
-- JSON), users of the host, posts, and the content of the toast.
use Prim.Native.Nat.{ℕ}
use Prim.Native.String.{String}
use mathlib.Core.Option.{Option}
use mathlib.Core.List.{List}

-- A text field that the server leaves out is the empty text here: the webapp reads such fields
-- for their truth or prints them.
pub record Issue : Type 0 where
  pub id : String
  pub message : String
  pub description : String
  pub create_at : ℕ
  pub post_id : String
  pub user : String
  pub list : String
  pub position : ℕ

-- What `resp.json()` gives on an answer of `/list`: the todos, or the object that the server answers
-- an error with (server/plugin.go, `handleErrorWithCode`). Answers that are not JSON make it throw.
pub data Received : Type 0 where
  listed : List Issue → Received
  refused : (error details : String) → Received

-- `UserProfile` of the host, as far as the webapp reads it.
pub record User : Type 0 where
  pub id : String
  pub username : String
  pub first_name : String
  pub last_name : String
  pub nickname : String

pub record Post : Type 0 where
  pub id : String
  pub message : String

-- The closures that a todo item hands to the toast, with the id of the item's todo.
pub data UndoTodo : Type 0 where
  undo_complete_todo : String → UndoTodo
  undo_remove_todo : String → UndoTodo

pub record ToastContent : Type 0 where
  pub icon : String
  pub message : String
  pub undo : UndoTodo

-- What the host's registry returns for the right-hand sidebar, to be dispatched.
pub data HostAction : Type 0 where
  show_rhs_plugin toggle_rhs_plugin : HostAction

-- A property of an object that is about to be written as JSON.
pub data JsValue : Type 0 where
  undefined null : JsValue
  str : String → JsValue
  object : List (String × String) → JsValue

-- An absent argument is undefined.
abbrev pub optional : Option String → JsValue
optional Option.none = undefined
optional (Option.some s) = str s
