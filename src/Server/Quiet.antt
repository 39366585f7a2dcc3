-- ===== src/Server/Quiet.antt =====
-- The plugin API while no other request runs and no call fails: its calls as functions of what
-- is stored and of how many ids were made.
use mattermost_plugin_todo.Prelude.{
  ℕ, suc, String, ◌≡◌, refl, ◌∙◌, sym, ap, Bool, true, Option, none, some,
}
use mattermost_plugin_todo.Server.{Issue}
use mattermost_plugin_todo.Server.Action.{
  Outcome, ok, fails, panics, Action, after, ◌>>=◌, ◌>>◌, lift, return, raise, attempt, answer,
  on_error, recover,
}
use mattermost_plugin_todo.Server.Api.{Api, Doc, Kv, update}
use mattermost_plugin_todo.Server.Lists.{try_log, or_log, rollback, log, new_issue}
pub mod Reads
pub mod Links
pub mod Search
pub mod Find
pub mod Send
pub mod Rollback
pub mod Accept
pub mod Complete
pub mod Errand
pub mod Reassign

pub record View : Type 0 where
  pub kv : Kv
  pub made : ℕ

abbrev pub put : String → Option Doc → View → View
put key value s = record s { kv = update key value s.kv }

abbrev pub drawn : View → View
drawn s = record s { made = suc s.made }

-- `m` run where the view is `s` gives `o`, and the view `t`.
pub record Takes {W A : Type 0} (view : W → View) (m : Action W A) (s : View) (o : Outcome A)
    (t : View) : Type 0 where
  pub run : (w : W) → view w ≡ s → (v : W) × (m w ≡ (o, v)) × (view v ≡ t)

module _ {W : Type 0} (api : Api W) where
  open api use {kv_get, kv_set, kv_delete, kv_compare_and_set, new_id, get_millis, log_error}

  pub record IsQuiet : Type 0 where
    pub view : W → View
    pub fresh : ℕ → String
    pub clock : ℕ → ℕ
    pub get_takes : (k : String) (s : View) → Takes view (kv_get k) s (ok (s.kv k)) s
    pub set_takes :
        (k : String) (d : Doc) (s : View) → Takes view (kv_set k d) s (ok tt) (put k (some d) s)
    pub delete_takes : (k : String) (s : View) → Takes view (kv_delete k) s (ok tt) (put k none s)
    pub cas_takes :
        (k : String) (d : Doc) (s : View)
        → Takes view (kv_compare_and_set k (s.kv k) d) s (ok true) (put k (some d) s)
    pub new_id_lem :
        (w : W) → ((new_id w).0 ≡ fresh (view w).made) × (view (new_id w).1 ≡ drawn (view w))
    pub get_millis_lem :
        (w : W) → ((get_millis w).0 ≡ clock (view w).made) × (view (get_millis w).1 ≡ view w)
    pub log_error_lem : (message : String) (w : W) → view (log_error message w) ≡ view w

module _ {W : Type 0} (view : W → View) where
  pub Takes-bind :
      {A B : Type 0} (m : Action W A) (f : A → Action W B) {s t u : View} {a : A} {o : Outcome B}
      → Takes view m s (ok a) t
      → Takes view (f a) t o u
      → Takes view (m >>= f) s o u
  Takes-bind m f h k = record {
    run = λ w e.
        let (v, p, q) = h.run w e in let (x, p', q') = k.run v q in (x, ap (after f) p ∙ p', q');
  }

  pub Takes-fails :
      {A B : Type 0} (m : Action W A) (f : A → Action W B) {s t : View} {e : String}
      → Takes view m s (fails e) t
      → Takes view (m >>= f) s (fails e) t
  Takes-fails m f h = record { run = λ w e. let (v, p, q) = h.run w e in (v, ap (after f) p, q) }

  pub Takes-panics :
      {A B : Type 0} (m : Action W A) (f : A → Action W B) {s t : View}
      → Takes view m s panics t
      → Takes view (m >>= f) s panics t
  Takes-panics m f h = record { run = λ w e. let (v, p, q) = h.run w e in (v, ap (after f) p, q) }

  pub Takes-return : {A : Type 0} (s : View) (o : Outcome A) → Takes view (lift o) s o s
  Takes-return s o = record { run = λ w e. (w, refl, e) }

  pub Takes-lift : {A : Type 0} (s : View) {o o' : Outcome A} → o ≡ o' → Takes view (lift o) s o' s
  Takes-lift s h = record { run = λ w e. (w, λ i. (h i, w), e) }

  pub Takes-attempt :
      {A : Type 0} (m : Action W A) {s t : View} {o : Outcome A}
      → Takes view m s o t
      → Takes view (attempt m) s (answer o) t
  Takes-attempt m h = record {
    run = λ w e. let (v, p, q) = h.run w e in (v, ap (λ r. (answer r.0, r.1)) p, q);
  }

  pub Takes-on_error :
      {A : Type 0} (m : Action W A) (r : Action W (Unit {0})) {s t : View} {a : A}
      → Takes view m s (ok a) t
      → Takes view (on_error m r) s (ok a) t
  Takes-on_error m r h = record {
    run = λ w e. let (v, p, q) = h.run w e in (v, ap (recover r) p, q);
  }

  pub Takes-rollback :
      {A : Type 0} (m : Action W A) (r : Action W (Unit {0})) {s t u : View} {e : String}
      → Takes view m s (fails e) t
      → Takes view r t (ok tt) u
      → Takes view (on_error m r) s (fails e) u
  Takes-rollback m r {e = error} h k = record {
    run = λ w e.
        let (v, p, q) = h.run w e in
        let (x, p', q') = k.run v q in (x, ap (recover r) p ∙ ap (after (λ _. raise error)) p', q');
  }

module _ {W : Type 0} (api : Api W) (quiet : IsQuiet api) where
  open quiet use {view, fresh, clock}

  pub Takes-try_log :
      {A : Type 0} (message : String) (m : Action W A) {s t : View} {a : A}
      → Takes view m s (ok a) t
      → Takes view (try_log api message m) s (ok (some a)) t
  unfolding try_log
  Takes-try_log message m {t} {a} h =
      Takes-bind view (attempt m) (or_log api message) (Takes-attempt view m h)
        (Takes-return view t (ok (some a)))

  pub Takes-try_rollback :
      {A : Type 0} (message : String) (m : Action W A) {s t : View} {a : A}
      → Takes view m s (ok a) t
      → Takes view (rollback api message m) s (ok tt) t
  unfolding rollback
  Takes-try_rollback message m {t} h =
      Takes-bind view (try_log api message m) (λ _. return tt) (Takes-try_log message m h)
        (Takes-return view t (ok tt))

  abbrev pub made_issue : View → String → String → String → Issue
  made_issue s message description post_id = record {
    id = fresh s.made;
    message = message;
    description = description;
    create_at = clock (suc s.made);
    post_id = post_id;
  }

  pub new_issue-Takes :
      (message description post_id : String) (s : View)
      → Takes view
          (new_issue api message description post_id)
          s
          (ok (made_issue s message description post_id))
          (drawn s)
  unfolding new_issue
  new_issue-Takes message description post_id s = record {
    run = λ w e.
        let (id, made) = quiet.new_id_lem w in
        let u = (api.new_id w).1 in
        let (time, same) = quiet.get_millis_lem u in
        let id_eq : (api.new_id w).0 ≡ fresh s.made = id ∙ ap (λ x. fresh x.made) e in
        let view_eq : view u ≡ drawn s = made ∙ ap drawn e in
        let time_eq : (api.get_millis u).0 ≡ clock (suc s.made) =
          time ∙ ap (λ x. clock x.made) view_eq in
        (
          (api.get_millis u).1,
          λ i. (
            ok (record {
              id = id_eq i;
              message = message;
              description = description;
              create_at = time_eq i;
              post_id = post_id;
            }),
            (api.get_millis u).1,
          ),
          same ∙ view_eq,
        );
  }
