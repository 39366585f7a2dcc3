-- ===== src/Server/Store/Atomic.antt =====
-- The rounds of the list store under other requests that change the same lists.
use mattermost_plugin_todo.Prelude.{
  ℕ, zero, suc, String, ◌≡◌, refl, Bool, true, false, Option, none, some, List, [], ◌∷◌, map, arith,
  Option-cases, inl, inr,
}
use mattermost_plugin_todo.Server.{IssueRef}
use mattermost_plugin_todo.Server.Action.{Outcome, ok, fails, panics, Action, after, return}
use mattermost_plugin_todo.Server.Api.{Kv, Api, IsApi, Doc, refs, ids, issue, text, update}
use mattermost_plugin_todo.Server.Keys.{list_key}
use mattermost_plugin_todo.Server.Edits.Unique.{IsUnique}
use mattermost_plugin_todo.Server.Edits.{decode_refs, decode_ids, legacy_refs, legacy_ref}
use mattermost_plugin_todo.Server.Store.{
  legacy_issue_ref, read_list, get_list_text, save_list, store_rounds,
}

-- The list that a stored text holds, in either form; no text is the empty list.
unfoldable pub list_of : Option Doc → Option (List IssueRef)
unfolding decode_refs decode_ids
list_of none = some []
list_of (some d) = elim (decode_refs d) [
  | some l ↦ some l
  | none ↦ elim (decode_ids d) [ some l ↦ some (map legacy_ref l) | none ↦ none ]
]

-- No list in the store holds two references of one id.
abbrev pub AllUnique : Kv → Type 0
AllUnique kv = (key : String) (l : List IssueRef) → list_of (kv key) ≡ some l → IsUnique l

legacy_refs-list_of :
    (found old : Option Doc) (l : List IssueRef)
    → legacy_refs found ≡ ok (l, old)
    → list_of old ≡ some l
unfolding legacy_refs list_of decode_ids decode_refs
legacy_refs-list_of none old l h = ground arith
legacy_refs-list_of (some (refs [])) old l h = ground arith
legacy_refs-list_of (some (refs (x ∷ r))) old l h = absurd (cc)
legacy_refs-list_of (some (ids [])) old l h = ground arith
legacy_refs-list_of (some (ids (x ∷ r))) old l h = ground arith
legacy_refs-list_of (some (issue i)) old l h = absurd (cc)
legacy_refs-list_of (some (text t)) old l h = absurd (cc)

pub list_of-refs :
    (d : Doc) (l : List IssueRef) → decode_refs d ≡ some l → list_of (some d) ≡ some l
unfolding list_of
list_of-refs d l h = rw (h, list_of)

module _ {W : Type 0} (api : Api W) (law : IsApi api) where
  open api use {kv_get, kv_compare_and_set}
  open law use {stored, Apart, apart_refl, apart_trans}

  -- What holds of a result and the state behind it: `P` of a value, and otherwise that the
  -- request itself changed nothing since `w`.
  abbrev pub Gives : {A : Type 0} → (A → W → Type 0) → W → Outcome A × W → Type 0
  Gives P w (ok a, v) = P a v
  Gives P w (fails e, v) = Apart w v
  Gives P w (panics, v) = Apart w v

  after-Gives :
      {A B : Type 0} (P : A → W → Type 0) (Q : B → W → Type 0) (w : W) (r : Outcome A × W)
      (f : A → Action W B)
      → Gives P w r
      → ((a : A) (v : W) → P a v → Gives Q w (f a v))
      → Gives Q w (after f r)
  after-Gives P Q w (ok a, v) f h k = k a v h
  after-Gives P Q w (fails e, v) f h k = h
  after-Gives P Q w (panics, v) f h k = h

  module _ (w : W) where
    lift-Gives :
        {A : Type 0} (o : Outcome A) (v : W)
        → Apart w v
        → Gives (λ a u. Apart w u × (o ≡ ok a)) w (o, v)
    lift-Gives (ok a) v far = (far, refl)
    lift-Gives (fails e) v far = far
    lift-Gives panics v far = far

    kv_get-Gives :
        (k : String) (v : W)
        → Apart w v
        → Gives (λ d u. Apart w u × (d ≡ stored u k)) w (kv_get k v)
    kv_get-Gives k v far = of_result (kv_get k v) refl
      where
        of_result :
            (r : Outcome (Option Doc) × W)
            → kv_get k v ≡ r
            → Gives (λ d u. Apart w u × (d ≡ stored u k)) w r
        of_result (ok d, u) e =
            let (near, same) = law.get_ok k v e in (apart_trans w v u far near, same)
        of_result (fails msg, u) e = apart_trans w v u far (law.get_fails k v e)
        of_result (panics, u) e = absurd (law.get_returns k v e)

    -- A text that was read, and the list that it holds.
    abbrev Holds : List IssueRef × Option Doc → W → Type 0
    Holds (l, old) v = Apart w v × (list_of old ≡ some l)

    legacy_refs-Gives :
        (found : Option Doc) (v : W) → Apart w v → Gives Holds w (legacy_refs found, v)
    legacy_refs-Gives found v far = of_result (legacy_refs found) refl
      where
        of_result :
            (o : Outcome (List IssueRef × Option Doc))
            → legacy_refs found ≡ o
            → Gives Holds w (o, v)
        of_result (ok (l, old)) e = (far, legacy_refs-list_of found old l e)
        of_result (fails msg) e = far
        of_result panics e = far

    module _ (user_id list_id : String) where
      legacy-Gives : (v : W) → Apart w v → Gives Holds w (legacy_issue_ref api user_id list_id v)
      unfolding legacy_issue_ref
      legacy-Gives v far =
          after-Gives _ Holds w (kv_get (list_key user_id list_id) v) _
            (kv_get-Gives (list_key user_id list_id) v far)
            λ found u h. legacy_refs-Gives found u h.0

      read_list-Gives :
          (found : Option Doc) (v : W)
          → Apart w v
          → Gives Holds w (read_list api user_id list_id found v)
      unfolding read_list
      read_list-Gives none v far = (far, unfold list_of in refl)
      read_list-Gives (some d) v far = elim (Option-cases (decode_refs d)) [
        | inl old ↦ rw (old, read_list) (legacy-Gives v far)
        | inr (l, new) ↦ rw (new, read_list) (far, list_of-refs d l new)
      ]

      get_list_text-Gives :
          (v : W) → Apart w v → Gives Holds w (get_list_text api user_id list_id v)
      unfolding get_list_text
      get_list_text-Gives v far =
          after-Gives _ Holds w (kv_get (list_key user_id list_id) v) _
            (kv_get-Gives (list_key user_id list_id) v far) λ found u h. read_list-Gives found u h.0

      Saved : Option Doc → List IssueRef → Bool → W → Type 0
      Saved old l true v =
          (mid : W) × Apart w mid
          × (stored mid (list_key user_id list_id) ≡ old)
          × (stored v ≡ update (list_key user_id list_id) (some (refs l)) (stored mid))
      Saved old l false v = Apart w v

      save_list-Gives :
          (l : List IssueRef) (old : Option Doc) (v : W)
          → Apart w v
          → Gives (Saved old l) w (save_list api user_id list_id l old v)
      unfolding save_list Saved
      save_list-Gives l old v far = of_result (save_list api user_id list_id l old v) refl
        where
          of_result :
              (r : Outcome Bool × W)
              → save_list api user_id list_id l old v ≡ r
              → Gives (Saved old l) w r
          of_result (ok true, u) e =
              let (mid, near, held, written) =
                law.cas_true (list_key user_id list_id) old (refs l) v e in
              (mid, apart_trans w v mid far near, held, written)
          of_result (ok false, u) e =
              apart_trans w v u far (law.cas_false (list_key user_id list_id) old (refs l) v e)
          of_result (fails msg, u) e =
              apart_trans w v u far (law.cas_fails (list_key user_id list_id) old (refs l) v e)
          of_result (panics, u) e =
              absurd (law.cas_returns (list_key user_id list_id) old (refs l) v e)

      module _ {A : Type 0} (edit : List IssueRef → Outcome (List IssueRef × A)) where
        -- The request changed the store once: the list that it edited is the one that the
        -- store held at that moment.
        pub record Edited (a : A) (v : W) : Type 0 where
          pub mid : W
          pub before : List IssueRef
          pub result : List IssueRef
          pub apart : Apart w mid
          pub held : list_of (stored mid (list_key user_id list_id)) ≡ some before
          pub edited : edit before ≡ ok (result, a)
          pub written :
              stored v ≡ update (list_key user_id list_id) (some (refs result)) (stored mid)

        abbrev next : (W → Outcome A × W) → A → Bool → Action W A
        next rounds a saved = elim saved [ true ↦ return a | false ↦ rounds ]

        next-Gives :
            (rounds : Action W A) (read : List IssueRef × Option Doc) (l : List IssueRef) (a : A)
            (saved : Bool) (v : W)
            → list_of read.1 ≡ some read.0
            → edit read.0 ≡ ok (l, a)
            → ((u : W) → Apart w u → Gives Edited w (rounds u))
            → Saved read.1 l saved v
            → Gives Edited w (next rounds a saved v)
        unfolding Saved
        next-Gives rounds read l a true v held edited again (mid, far, same, written) = record {
          mid = mid;
          before = read.0;
          result = l;
          apart = far;
          held = rw same held;
          edited = edited;
          written = written;
        }
        next-Gives rounds read l a false v held edited again far = again v far

        pub store_rounds-Gives :
            (n : ℕ) (failure : String) (v : W)
            → Apart w v
            → Gives Edited w (store_rounds api n user_id list_id failure edit v)
        unfolding store_rounds
        store_rounds-Gives zero failure v far = far
        store_rounds-Gives (suc n) failure v far =
            after-Gives Holds Edited w (get_list_text api user_id list_id v) _
              (get_list_text-Gives v far)
              λ read u (far', held).
                after-Gives _ Edited w (edit read.0, u) _ (lift-Gives (edit read.0) u far')
                  λ (l, a) u' (far'', edited).
                    after-Gives _ Edited w (save_list api user_id list_id l read.1 u') _
                      (save_list-Gives l read.1 u' far'')
                      λ saved u'' done.
                        next-Gives (store_rounds api n user_id list_id failure edit) read l a saved
                          u'' held edited (store_rounds-Gives n failure) done
