-- ===== src/Examples/Servers.antt =====
-- Examples on the server's list store, list manager and preferences.
use mattermost_plugin_todo.Prelude.{◌≡◌, refl, false, none, some, [], ◌∷◌, arith}
use mattermost_plugin_todo.Server.{Issue, IssueRef}
use mattermost_plugin_todo.Server.Action.{ok, fails, panics, ◌>>◌}
use mattermost_plugin_todo.Server.Api.{refs, text, update}
use mattermost_plugin_todo.Server.Keys.{list_key, issue_key}
use mattermost_plugin_todo.Server.Keys.Apart.{ne_of_test}
use mattermost_plugin_todo.Server.Edits.Unique.{without}
use mattermost_plugin_todo.Server.Edits.{remove_edit, bump_edit, json_error, decode_refs}
use mattermost_plugin_todo.Server.Edits.RemoveTwice.{remove_edit-panics}
use mattermost_plugin_todo.Server.Edits.Bump.{bump_edit_absent}
use mattermost_plugin_todo.Server.Store.{
  add_reference, remove_reference, pop_reference, bump_reference,
}
use mattermost_plugin_todo.Server.Store.Atomic.{AllUnique, list_of, Gives}
use mattermost_plugin_todo.Server.Store.Changes.{
  Changes, Appends, Removes, Bumps, add_reference-Changes, remove_reference-Changes,
  bump_reference-Changes,
}
use mattermost_plugin_todo.Server.Store.Invariant.{update-AllUnique, store-AllUnique}
use mattermost_plugin_todo.Server.Quiet.{View, put, Takes}
use mathlib.Core.Path.{subst}
use mattermost_plugin_todo.Server.Quiet.Links.{ref_to, HasList, Linked}
use mattermost_plugin_todo.Server.Quiet.Send.{sent_view, sent_issue, got_issue, send_issue-Linked}
use mattermost_plugin_todo.Server.Quiet.Rollback.{rolled_back, send_issue-rolled_back}
use mattermost_plugin_todo.Server.Quiet.Errand.{errand, done_view, errand-restores}
use mattermost_plugin_todo.Server.Quiet.Reassign.{reassigned_view, change_assignment-keeps}
use mattermost_plugin_todo.Server.Lists.{send_issue}
use mattermost_plugin_todo.Server.Moves.{change_assignment}
use mattermost_plugin_todo.Server.Preferences.{
  save_last_reminder_time_for_user, get_last_reminder_time_for_user,
}
use mattermost_plugin_todo.Server.Preferences.Kept.{reminded, last_reminder_time-kept}
use mattermost_plugin_todo.Examples.Memory.{memory, quiet_memory, lawful_memory}

abbrev old : IssueRef
old = ref_to "old" "sent" "cat"

abbrev empty : View
empty = record { kv = λ k. none; made = 0 }

-- Bob has received one issue.
abbrev start : View
start = put (list_key "bob" "_in") (some (refs (old ∷ []))) empty

add_reference-Changes_example :
    Gives memory lawful_memory
      (λ _. Changes memory lawful_memory start "bob" "_in" (Appends (ref_to "new" "" "")))
      start
      (add_reference memory "bob" "new" "_in" "" "" start)
add_reference-Changes_example =
    add_reference-Changes memory lawful_memory start "bob" "new" "_in" "" ""

remove_edit-panics_example : remove_edit "old" (old ∷ old ∷ []) ≡ panics
remove_edit-panics_example = remove_edit-panics "old" old refl (old ∷ []) refl

bump_edit_absent_example : bump_edit "gone" (old ∷ old ∷ []) ≡ ok (old ∷ old ∷ [], tt)
bump_edit_absent_example = bump_edit_absent "gone" (old ∷ []) old refl

empty-AllUnique : AllUnique empty.kv
unfolding list_of
empty-AllUnique key [] h = tt
empty-AllUnique key (ir ∷ l) h = absurd (cc)

start-AllUnique : AllUnique start.kv
start-AllUnique =
    update-AllUnique empty.kv (list_key "bob" "_in") (old ∷ []) empty-AllUnique (refl, tt)

remove_reference-Changes_example :
    Gives memory lawful_memory
      (λ _. Changes memory lawful_memory start "bob" "_in" (Removes "old"))
      start
      (remove_reference memory "bob" "old" "_in" start)
remove_reference-Changes_example =
    remove_reference-Changes memory lawful_memory start "bob"
      (λ u v e all. subst (λ w. AllUnique w.kv) e all) start-AllUnique "old" "_in"

bump_reference-Changes_example :
    Gives memory lawful_memory
      (λ _. Changes memory lawful_memory start "bob" "_in" (Bumps "old"))
      start
      (bump_reference memory "bob" "old" "_in" start)
bump_reference-Changes_example =
    bump_reference-Changes memory lawful_memory start "bob"
      (λ u v e all. subst (λ w. AllUnique w.kv) e all) start-AllUnique "old" "_in"

store-AllUnique_example :
    AllUnique (add_reference memory "bob" "new" "_in" "" "" start).1.kv
    × AllUnique (remove_reference memory "bob" "new" "_in" start).1.kv
    × AllUnique (pop_reference memory "bob" "_in" start).1.kv
    × AllUnique (bump_reference memory "bob" "new" "_in" start).1.kv
store-AllUnique_example =
    store-AllUnique memory lawful_memory (λ u v e all. subst (λ w. AllUnique w.kv) e all) start
      "bob" "_in" start-AllUnique "new" "" ""

-- Ann sends Bob an issue.
start_out : HasList start "ann" "_out" []
unfolding list_of list_key
start_out = record { held = refl; unique = tt }

start_in : HasList start "bob" "_in" (old ∷ [])
unfolding list_of list_key decode_refs
start_in = record { held = refl; unique = (refl, tt) }

start_mine : HasList start "bob" "" []
unfolding list_of list_key
start_mine = record { held = refl; unique = tt }

abbrev sent : View
sent =
    sent_view memory quiet_memory start "ann" "bob" "Call Cat" "" "" [] (old ∷ []) refl start_out
      start_in (ne_of_test "issue" "issuex" refl) refl refl

abbrev ann_text : Issue
ann_text = sent_issue memory quiet_memory start "ann" "bob" "Call Cat" "" ""

abbrev bob_text : Issue
bob_text = got_issue memory quiet_memory start "ann" "bob" "Call Cat" "" ""

send_issue-Linked_example :
    Takes quiet_memory.view
      (send_issue memory "ann" "bob" "Call Cat" "" "")
      start
      (ok "issuex")
      sent
    × Linked sent "ann" "issue" "bob" "issuex" "_in"
        (ref_to "issue" "issuex" "bob" ∷ [])
        (old ∷ ref_to "issuex" "issue" "ann" ∷ [])
        ann_text
        bob_text
send_issue-Linked_example =
    send_issue-Linked memory quiet_memory start "ann" "bob" "Call Cat" "" "" [] (old ∷ []) refl
      start_out start_in (ne_of_test "issue" "issuex" refl) refl refl

-- Bob's in list holds a text that is not JSON.
abbrev broken : View
broken = put (list_key "bob" "_in") (some (text [])) empty

broken_out : HasList broken "ann" "_out" []
unfolding list_of list_key
broken_out = record { held = refl; unique = tt }

broken_in : list_of (broken.kv (list_key "bob" "_in")) ≡ none
unfolding list_of list_key decode_refs
broken_in = refl

abbrev taken_back : View
taken_back =
    rolled_back memory quiet_memory broken "ann" "bob" "Call Cat" "" "" [] broken_out
      (ne_of_test "issue" "issuex" refl) refl refl broken_in

send_issue-rolled_back_example :
    Takes quiet_memory.view
      (send_issue memory "ann" "bob" "Call Cat" "" "")
      broken
      (fails json_error)
      taken_back
    × (taken_back.kv
        ≡ update
            (list_key "ann" "_out")
            (some (refs []))
            (update (issue_key "issuex") none (update (issue_key "issue") none broken.kv)))
send_issue-rolled_back_example =
    send_issue-rolled_back memory quiet_memory broken "ann" "bob" "Call Cat" "" "" [] broken_out
      (ne_of_test "issue" "issuex" refl) refl refl broken_in

abbrev done : View
done =
    done_view memory quiet_memory start "ann" "bob" "Call Cat" "" "" [] (old ∷ []) [] refl refl
      start_out start_in start_mine (ne_of_test "issue" "issuex" refl) refl refl refl

errand-restores_example :
    Takes quiet_memory.view
      (errand memory "ann" "bob" "Call Cat" "" "")
      start
      (ok (record {
        issue = some ann_text;
        foreign_id = "ann";
        is_sender = false;
        list_to_update = "";
      }))
      done
    × HasList done "ann" "_out" []
    × HasList done "bob" "_in" (old ∷ [])
    × HasList done "bob" "" []
    × (done.kv (issue_key "issue") ≡ none)
    × (done.kv (issue_key "issuex") ≡ none)
errand-restores_example =
    errand-restores memory quiet_memory start "ann" "bob" "Call Cat" "" "" [] (old ∷ []) [] refl
      refl start_out start_in start_mine (ne_of_test "issue" "issuex" refl) refl refl refl

-- Ann gives the issue to Dan instead.
sent_ann_mine : HasList sent "ann" "" []
unfolding list_of list_key issue_key
sent_ann_mine = record { held = refl; unique = tt }

sent_bob_mine : HasList sent "bob" "" []
unfolding list_of list_key issue_key
sent_bob_mine = record { held = refl; unique = tt }

sent_bob_out : HasList sent "bob" "_out" []
unfolding list_of list_key issue_key
sent_bob_out = record { held = refl; unique = tt }

sent-Linked :
    Linked sent "ann" "issue" "bob" "issuex" "_in"
      (ref_to "issue" "issuex" "bob" ∷ [])
      (old ∷ ref_to "issuex" "issue" "ann" ∷ [])
      ann_text
      bob_text
sent-Linked =
    (send_issue-Linked memory quiet_memory start "ann" "bob" "Call Cat" "" "" [] (old ∷ []) refl
      start_out start_in (ne_of_test "issue" "issuex" refl) refl refl).1

abbrev reassigned : View
reassigned =
    reassigned_view memory quiet_memory sent "ann" "issue" "bob" "issuex" "dan"
      (ref_to "issue" "issuex" "bob" ∷ []) (old ∷ ref_to "issuex" "issue" "ann" ∷ []) [] [] []
      ann_text bob_text refl refl refl sent-Linked sent_ann_mine refl sent_bob_mine refl
      sent_bob_out refl refl

change_assignment-keeps_example :
    Takes quiet_memory.view
      (change_assignment memory "issue" "ann" "dan")
      sent
      (ok ("Call Cat", "bob"))
      reassigned
    × HasList reassigned "ann" "_out" (ref_to "issue" "issuexx" "dan" ∷ [])
    × HasList reassigned "bob" "_in" (old ∷ ref_to "issuexx" "issue" "ann" ∷ [])
    × (reassigned.kv (list_key "dan" "_in") ≡ sent.kv (list_key "dan" "_in"))
unfolding without
change_assignment-keeps_example =
    change_assignment-keeps memory quiet_memory sent "ann" "issue" "bob" "issuex" "dan"
      (ref_to "issue" "issuex" "bob" ∷ []) (old ∷ ref_to "issuex" "issue" "ann" ∷ []) [] [] []
      ann_text bob_text refl refl refl sent-Linked sent_ann_mine refl sent_bob_mine refl
      sent_bob_out refl refl (ne_of_test "dan" "bob" refl) refl

last_reminder_time-kept_example :
    Takes quiet_memory.view
      (do
        save_last_reminder_time_for_user memory "bob"
        get_last_reminder_time_for_user memory "bob")
      start
      (ok 0)
      (reminded memory quiet_memory start "bob")
last_reminder_time-kept_example =
    last_reminder_time-kept memory quiet_memory start "bob" (omega arith)
