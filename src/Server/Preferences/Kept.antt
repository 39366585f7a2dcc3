-- ===== src/Server/Preferences/Kept.antt =====
-- What is saved is read back, while no other request runs and no call fails.
use mattermost_plugin_todo.Prelude.{
  ℕ, String, ◌≡◌, ◌<◌, ap, ◌∙◌, Bool, true, none, some, eq_refl, ltb, arith,
}
use mathlib.Core.Path.{subst}
use mattermost_plugin_todo.Server.Action.{ok, ◌>>◌, attempt, lift}
use mattermost_plugin_todo.Server.Api.{Api, Doc, text, update_hit}
use mattermost_plugin_todo.Server.Keys.{
  reminder_key, reminder_enabled_key, allow_incoming_task_requests_key,
}
use mattermost_plugin_todo.Server.Decimal.{format_int, format_bool, int64_mod}
use mattermost_plugin_todo.Server.Decimal.Bounds.{parse_int-format_int, parse_bool-format_bool}
use mattermost_plugin_todo.Server.Preferences.{
  parsed, reminder_at, millis, save_last_reminder_time_for_user, get_last_reminder_time_for_user,
  save_reminder_preference, or_default_on, read_reminder_preference, get_reminder_preference,
  save_allow_incoming_task_requests_preference, read_allow,
  get_allow_incoming_task_requests_preference,
}
use mattermost_plugin_todo.Server.Quiet.{
  View, put, Takes, IsQuiet, Takes-bind, Takes-return, Takes-lift, Takes-attempt,
}

module _ {W : Type 0} (api : Api W) (quiet : IsQuiet api) (s : View) (user_id : String) where
  open quiet use {view, clock}

  millis-Takes : Takes view (millis api) s (ok (clock s.made)) s
  millis-Takes = record {
    run = λ w e.
        let (time, same) = quiet.get_millis_lem w in
        (
          (api.get_millis w).1,
          λ i. (ok ((time ∙ ap (λ x. clock x.made) e) i), (api.get_millis w).1),
          same ∙ e,
        );
  }

  -- What a call reads behind a save of its key.
  get_back :
      (key : String) (d : Doc)
      → Takes view (api.kv_get key) (put key (some d) s) (ok (some d)) (put key (some d) s)
  get_back key d =
      subst (λ x. Takes view (api.kv_get key) (put key (some d) s) (ok x) (put key (some d) s))
        (update_hit key key (some d) s.kv (eq_refl key)) (quiet.get_takes key (put key (some d) s))

  abbrev pub reminded : View
  reminded = put (reminder_key user_id) (some (text (format_int (clock s.made)))) s

  save_last-Takes : Takes view (save_last_reminder_time_for_user api user_id) s (ok tt) reminded
  unfolding save_last_reminder_time_for_user
  save_last-Takes =
      Takes-bind view (millis api)
        (λ now. api.kv_set (reminder_key user_id) (text (format_int now))) millis-Takes
        (quiet.set_takes (reminder_key user_id) (text (format_int (clock s.made))) s)

  reminder_at-format_int : (n : ℕ) → n < int64_mod → reminder_at (some (text (format_int n))) ≡ ok n
  unfolding reminder_at parsed
  reminder_at-format_int n h =
      parse_int-format_int n (omega arith)
      ∙ (let fits : ltb n int64_mod ≡ true = ground arith in rw fits)

  -- While no other request runs and no call fails, a reminder that is saved is read back as the
  -- time of saving it, if that is below 2⁶³.
  pub last_reminder_time-kept :
      clock s.made < int64_mod
      → Takes view
          (do
            save_last_reminder_time_for_user api user_id
            get_last_reminder_time_for_user api user_id)
          s
          (ok (clock s.made))
          reminded
  unfolding get_last_reminder_time_for_user
  last_reminder_time-kept h =
      Takes-bind view (save_last_reminder_time_for_user api user_id)
        (λ _. get_last_reminder_time_for_user api user_id) save_last-Takes
        (Takes-bind view (api.kv_get (reminder_key user_id)) (λ found. lift (reminder_at found))
          (get_back (reminder_key user_id) (text (format_int (clock s.made))))
          (Takes-lift view reminded (reminder_at-format_int (clock s.made) h)))

  module _ (preference : Bool) where
    abbrev pub reminding : View
    reminding = put (reminder_enabled_key user_id) (some (text (format_bool preference))) s

    abbrev pub allowing : View
    allowing =
        put (allow_incoming_task_requests_key user_id) (some (text (format_bool preference))) s

    -- What is read of a preference that is stored.
    module _ (v : View) where
      pub get_reminder-Takes :
          v.kv (reminder_enabled_key user_id) ≡ some (text (format_bool preference))
          → Takes view (get_reminder_preference api user_id) v (ok preference) v
      unfolding get_reminder_preference read_reminder_preference or_default_on parsed
      get_reminder-Takes held =
          Takes-bind view (attempt (api.kv_get (reminder_enabled_key user_id)))
            (read_reminder_preference api)
            (Takes-attempt view _ (
              subst (λ x. Takes view (api.kv_get (reminder_enabled_key user_id)) v (ok x) v) held
                (quiet.get_takes (reminder_enabled_key user_id) v)))
            (rw (parse_bool-format_bool preference) (Takes-return view v (ok preference)))

      pub get_allow-Takes :
          v.kv (allow_incoming_task_requests_key user_id) ≡ some (text (format_bool preference))
          → Takes view
              (get_allow_incoming_task_requests_preference api user_id)
              v
              (ok (preference, none))
              v
      unfolding get_allow_incoming_task_requests_preference read_allow parsed
      get_allow-Takes held =
          Takes-bind view (attempt (api.kv_get (allow_incoming_task_requests_key user_id)))
            (read_allow api)
            (Takes-attempt view _ (
              subst
                (λ x. Takes view (api.kv_get (allow_incoming_task_requests_key user_id)) v (ok x) v)
                held (quiet.get_takes (allow_incoming_task_requests_key user_id) v)))
            (rw (read_allow, parse_bool-format_bool preference)
              (Takes-return view v (ok (preference, none))))

    reminder_kept :
        Takes view
          (do save_reminder_preference api user_id preference; get_reminder_preference api user_id)
          s
          (ok preference)
          reminding
    unfolding save_reminder_preference
    reminder_kept =
        Takes-bind view (save_reminder_preference api user_id preference)
          (λ _. get_reminder_preference api user_id)
          (quiet.set_takes (reminder_enabled_key user_id) (text (format_bool preference)) s)
          (get_reminder-Takes reminding (update_hit _ _ _ s.kv (eq_refl _)))

    allow_kept :
        Takes view
          (do
            save_allow_incoming_task_requests_preference api user_id preference
            get_allow_incoming_task_requests_preference api user_id)
          s
          (ok (preference, none))
          allowing
    unfolding save_allow_incoming_task_requests_preference
    allow_kept =
        Takes-bind view (save_allow_incoming_task_requests_preference api user_id preference)
          (λ _. get_allow_incoming_task_requests_preference api user_id)
          (quiet.set_takes (allow_incoming_task_requests_key user_id)
            (text (format_bool preference)) s)
          (get_allow-Takes allowing (update_hit _ _ _ s.kv (eq_refl _)))

    -- While no other request runs and no call fails, each of the two preferences is read back
    -- as it was saved, without an error.
    pub preferences-kept :
        Takes view
          (do save_reminder_preference api user_id preference; get_reminder_preference api user_id)
          s
          (ok preference)
          reminding
        × Takes view
            (do
              save_allow_incoming_task_requests_preference api user_id preference
              get_allow_incoming_task_requests_preference api user_id)
            s
            (ok (preference, none))
            allowing
    preferences-kept = (reminder_kept, allow_kept)
