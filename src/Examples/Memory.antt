-- ===== src/Examples/Memory.antt =====
-- A plugin API over one store in memory, and the laws that it meets.
use native.Mathlib.Decide.{ℕ_discrete}
use mattermost_plugin_todo.Prelude.{
  ℕ, zero, suc, String, ◌<>◌, ◌≡◌, ◌∙◌, refl, sym, ap, Bool, true, false, ◌==◌, eq_iff, Bool-cases,
  inl, inr, Option, none, some,
}
use mattermost_plugin_todo.Server.{Issue, IssueRef}
use mattermost_plugin_todo.Server.Action.{Outcome, ok, fails, panics}
use mattermost_plugin_todo.Server.Api.{Api, IsApi, Doc}
use mattermost_plugin_todo.Server.Keys.Apart.{ne_of_test}
use mattermost_plugin_todo.Server.Quiet.{View, put, drawn, IsQuiet}

pub string_discrete : Discrete String
string_discrete s t = elim (Bool-cases (s == t)) [
  | inl same ↦ yes ((eq_iff s t).0 same)
  | inr apart ↦ no (ne_of_test s t apart)
]

ref_discrete : Discrete IssueRef
ref_discrete = hlevel (string_discrete)

issue_discrete : Discrete Issue
issue_discrete = hlevel (ℕ_discrete, string_discrete)

doc_discrete : Discrete Doc
doc_discrete = hlevel (ℕ_discrete, string_discrete, ref_discrete, issue_discrete)

pub text_discrete : Discrete (Option Doc)
text_discrete = hlevel (doc_discrete)

-- Ids of 26 characters, as model.NewId makes them.
abbrev pub id_tail : ℕ → String
id_tail zero = ""
id_tail (suc n) = "x" <> id_tail n

abbrev pub memory_id : ℕ → String
memory_id n = "issue" <> id_tail n

abbrev pub swapped : {P : Type 0} → String → Doc → View → Dec P → Outcome Bool × View
swapped k d w (yes p) = (ok true, put k (some d) w)
swapped k d w (no p) = (ok false, w)

pub swapped_same :
    {P : Type 0} (k : String) (d : Doc) (w : View) (same : Dec P)
    → P
    → swapped k d w same ≡ (ok true, put k (some d) w)
swapped_same k d w (yes p) h = refl
swapped_same k d w (no p) h = absurd (p h)

-- The plugin API over one store in memory, for one request at a time.
abbrev pub memory : Api View
memory = record {
  kv_get = λ k w. (ok (w.kv k), w);
  kv_set = λ k d w. (ok tt, put k (some d) w);
  kv_delete = λ k w. (ok tt, put k none w);
  kv_compare_and_set = λ k old d w. swapped k d w (text_discrete (w.kv k) old);
  get_user = λ user_id w. (ok user_id, w);
  new_id = λ w. (memory_id w.made, drawn w);
  get_millis = λ w. (w.made, w);
  log_error = λ message w. w;
}

abbrev pub quiet_memory : IsQuiet memory
quiet_memory = record {
  view = λ w. w;
  fresh = memory_id;
  clock = λ n. n;
  get_takes = λ k s. record { run = λ w e. (w, λ i. (ok ((e i).kv k), w), e) };
  set_takes = λ k d s. record { run = λ w e. (put k (some d) w, refl, λ i. put k (some d) (e i)) };
  delete_takes = λ k s. record { run = λ w e. (put k none w, refl, λ i. put k none (e i)) };
  cas_takes = λ k d s. record {
    run = λ w e. (
      put k (some d) w,
      swapped_same k d w (text_discrete (w.kv k) (s.kv k)) (λ i. (e i).kv k),
      λ i. put k (some d) (e i),
    );
  };
  new_id_lem = λ w. (refl, refl);
  get_millis_lem = λ w. (refl, refl);
  log_error_lem = λ message w. refl;
}

abbrev pub value_or : {A : Type 0} → A → Outcome A → A
value_or a (ok b) = b
value_or a _ = a

pub ok-injective :
    {A : Type 0} {a b : A} {u v : View} → ◌≡◌ {A = Outcome A × View} (ok a, u) (ok b, v) → a ≡ b
ok-injective {A} {a} h = ap (λ r. value_or a r.0) h

module _ (k : String) (d : Doc) (w w' : View) {P : Type 0} where
  pub swapped-true :
      (same : Dec P) → swapped k d w same ≡ (ok true, w') → P × (put k (some d) w ≡ w')
  swapped-true (yes p) h = (p, ap (λ r. r.1) h)
  swapped-true (no p) h = let e = ap (λ r. r.0) h in absurd (cc e)

  pub swapped-false : (same : Dec P) → swapped k d w same ≡ (ok false, w') → w ≡ w'
  swapped-false (yes p) h = let e = ap (λ r. r.0) h in absurd (cc e)
  swapped-false (no p) h = ap (λ r. r.1) h

  pub swapped_fails : (same : Dec P) (e : String) → swapped k d w same ≡ (fails e, w') → w ≡ w'
  swapped_fails (yes p) msg h = let e = ap (λ r. r.0) h in absurd (cc e)
  swapped_fails (no p) msg h = ap (λ r. r.1) h

  pub swapped_panics : (same : Dec P) → swapped k d w same ≡ (panics, w') → ⊥
  swapped_panics (yes p) h = let e = ap (λ r. r.0) h in absurd (cc e)
  swapped_panics (no p) h = let e = ap (λ r. r.0) h in absurd (cc e)

pub not_panics :
    {A : Type 0} {a : A} {u v : View} → ◌≡◌ {A = Outcome A × View} (ok a, u) (panics, v) → ⊥
not_panics h = let e = ap (λ r. r.0) h in cc e

abbrev pub lawful_memory : IsApi memory
lawful_memory = record {
  stored = λ w. w.kv;
  Apart = λ u v. u ≡ v;
  apart_refl = λ w. refl;
  apart_trans = λ u v w p q. p ∙ q;
  get_ok = λ k w {d} {w'} h.
      (ap (λ r. r.1) h, sym (ok-injective h) ∙ ap (λ x. x.kv k) (ap (λ r. r.1) h));
  get_fails = λ k w {e} {w'} h. ap (λ r. r.1) h;
  get_returns = λ k w {w'} h. not_panics h;
  cas_true = λ k old d w {w'} h.
      let (same, written) = swapped-true k d w w' (text_discrete (w.kv k) old) h in
      (w, refl, same, sym (ap (λ x. x.kv) written));
  cas_false = λ k old d w {w'} h. swapped-false k d w w' (text_discrete (w.kv k) old) h;
  cas_fails = λ k old d w {e} {w'} h. swapped_fails k d w w' (text_discrete (w.kv k) old) e h;
  cas_returns = λ k old d w {w'} h. swapped_panics k d w w' (text_discrete (w.kv k) old) h;
}
