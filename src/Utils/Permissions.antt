-- ===== src/Utils/Permissions.antt =====
-- Which actions a todo item offers, by the list it is shown in and the list it has at the user at
-- the other end (webapp/src/utils.js).
use mattermost_plugin_todo.Prelude.{
  ◌≢◌, String, Bool, false, not, ◌&&◌, ◌||◌, ◌≡◌, arith, eq_iff, ◌==◌,
}

unfoldable pub can_remove : String → String → Bool
can_remove my_list foreign_list = my_list == "my" || my_list == "in" || foreign_list == "in"

unfoldable pub can_complete : String → Bool
can_complete my_list = my_list == "my" || my_list == "in"

unfoldable pub can_accept : String → Bool
can_accept my_list = my_list == "in"

unfoldable pub can_bump : String → String → Bool
can_bump my_list foreign_list = my_list == "out" && foreign_list == "in"

out_ne_in : ◌≢◌ {A = String} "out" "in"
out_ne_in = ground (arith, eq_iff "out" "in")

out_ne_my : ◌≢◌ {A = String} "out" "my"
out_ne_my = ground (arith, eq_iff "out" "my")

-- What can be accepted can be completed and removed; what can be bumped can be removed, and can
-- be neither accepted nor completed.
pub permissions_order :
    (my_list foreign_list : String)
    → ((can_accept my_list
          && not (
              can_complete my_list
              && can_remove my_list foreign_list
              && not (can_bump my_list foreign_list)))
        ≡ false)
      × ((can_bump my_list foreign_list
            && not (
                can_remove my_list foreign_list
                && not (can_accept my_list)
                && not (can_complete my_list)))
          ≡ false)
unfolding can_remove can_complete can_accept can_bump
permissions_order my_list foreign_list = ground (
  arith,
  eq_iff my_list "my",
  eq_iff my_list "in",
  eq_iff my_list "out",
  eq_iff foreign_list "in",
  out_ne_in,
  out_ne_my,
)
