-- ===== src/Server/Keys/Apart.antt =====
-- Different lists and issues have different keys.
use mattermost_plugin_todo.Prelude.{
  String, ◌≡◌, ◌≢◌, refl, sym, ◌∙◌, ap, true, false, ◌==◌, ◌<>◌, eq_iff, Bool-cases, inl, inr,
}
use text.Mathlib.TextLemmas.{append_assoc, append_cancel_left, append_inj}
use Prim.Native.String.{count}
use mattermost_plugin_todo.Server.Keys.{
  list_key, issue_key, reminder_enabled_key, allow_incoming_task_requests_key,
}

pub eq-false : (s t : String) → s ≢ t → (s == t) ≡ false
eq-false s t h = elim (Bool-cases (s == t)) [
  | inl same ↦ absurd (h ((eq_iff s t).0 same))
  | inr apart ↦ apart
]

true-ne-false : true ≢ false
true-ne-false h = cc

pub ne_of_test : (s t : String) → (s == t) ≡ false → s ≢ t
ne_of_test s t apart same = true-ne-false (sym ((eq_iff s t).1 same) ∙ apart)

-- Texts that start with different letters.
apart_by : (c d s t x y : String) → count c ≡ count d → c ≢ d → (c <> s) <> x ≢ (d <> t) <> y
apart_by c d s t x y size h e =
    h (append_inj (sym (append_assoc c s x) ∙ e ∙ append_assoc d t y) size).0

pub list_key-ne-issue_key :
    (user_id list_id issue_id : String) → list_key user_id list_id ≢ issue_key issue_id
unfolding list_key issue_key
list_key-ne-issue_key user_id list_id issue_id =
    apart_by "o" "i" "rder_" "tem_" (user_id <> list_id) issue_id refl
      (λ h. true-ne-false (ap (λ c. c == "o") h))

-- Two lists with one key are the same list of the same user, if the users' ids have one
-- length, as Mattermost's have.
pub list_key-injective :
    (user_id other_id list_id other_list : String)
    → count user_id ≡ count other_id
    → list_key user_id list_id ≡ list_key other_id other_list
    → (user_id ≡ other_id) × (list_id ≡ other_list)
unfolding list_key
list_key-injective user_id other_id list_id other_list size h =
    append_inj (append_cancel_left "order_" (user_id <> list_id) (other_id <> other_list) h) size

pub issue_key-injective : (i j : String) → issue_key i ≡ issue_key j → i ≡ j
unfolding issue_key
issue_key-injective i j h = append_cancel_left "item_" i j h

-- The same facts as tests.
pub list_issue_apart :
    (user_id list_id issue_id : String) → (list_key user_id list_id == issue_key issue_id) ≡ false
list_issue_apart user_id list_id issue_id =
    eq-false _ _ (list_key-ne-issue_key user_id list_id issue_id)

pub issue_list_apart :
    (user_id list_id issue_id : String) → (issue_key issue_id == list_key user_id list_id) ≡ false
issue_list_apart user_id list_id issue_id =
    eq-false _ _ (λ h. list_key-ne-issue_key user_id list_id issue_id (sym h))

pub lists_apart :
    (user_id other_id list_id other_list : String)
    → count user_id ≡ count other_id
    → list_id ≢ other_list
    → (list_key user_id list_id == list_key other_id other_list) ≡ false
lists_apart user_id other_id list_id other_list size h =
    eq-false _ _ (λ e. h (list_key-injective user_id other_id list_id other_list size e).1)

pub issues_apart : (i j : String) → i ≢ j → (issue_key i == issue_key j) ≡ false
issues_apart i j h = eq-false _ _ (λ e. h (issue_key-injective i j e))

pub reminder_allow_apart :
    (user_id : String)
    → (reminder_enabled_key user_id == allow_incoming_task_requests_key user_id) ≡ false
unfolding reminder_enabled_key allow_incoming_task_requests_key
reminder_allow_apart user_id = eq-false _ _ (
    apart_by "r" "a" "eminder_enabled_" "llow_incoming_task_" user_id user_id refl
      (λ h. true-ne-false (ap (λ c. c == "r") h)))
