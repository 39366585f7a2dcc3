-- ===== src/Server/Api.antt =====
-- What the server uses of Mattermost's plugin API, as a parameter: the key-value store, the
-- clock, fresh ids and the log. A request runs between other requests, which may change
-- the store before each of its calls.
use mattermost_plugin_todo.Prelude.{
  ℕ, String, ◌≡◌, Bool, true, false, Option, some, List, ◌==◌, if◌then◌else◌,
}
use mattermost_plugin_todo.Server.{Issue, IssueRef}
use mattermost_plugin_todo.Server.Action.{ok, fails, panics, Action}

-- A stored text, by what it holds: the JSON text of a list, of a list as early versions
-- stored it (ids only), of an issue, or any other text, by its bytes.
pub data Doc : Type 0 where
  refs : List IssueRef → Doc
  ids : List String → Doc
  issue : Issue → Doc
  text : List ℕ → Doc

abbrev pub Kv : Type 0
Kv = String → Option Doc

abbrev pub update : String → Option Doc → Kv → Kv
update key value kv k = if k == key then value else kv k

pub update_hit :
    (key k : String) (value : Option Doc) (kv : Kv)
    → (k == key) ≡ true
    → update key value kv k ≡ value
update_hit key k value kv h = rw h

pub update_miss :
    (key k : String) (value : Option Doc) (kv : Kv)
    → (k == key) ≡ false
    → update key value kv k ≡ kv k
update_miss key k value kv h = rw h

-- `W` is the state outside the request. A call that fails gives `fails`.
pub record Api (W : Type 0) : Type 0 where
  pub kv_get : String → Action W (Option Doc)
  pub kv_set : String → Doc → Action W (Unit {0})
  pub kv_delete : String → Action W (Unit {0})
  pub kv_compare_and_set : String → Option Doc → Doc → Action W Bool
  -- The name of a user.
  pub get_user : String → Action W String
  pub new_id : W → String × W
  pub get_millis : W → ℕ × W
  pub log_error : String → W → W

module _ {W : Type 0} (api : Api W) where
  open api use {kv_get, kv_set, kv_delete, kv_compare_and_set, new_id, get_millis, log_error}

  -- What the calls do. `Apart w w'`: from `w` to `w'` only other requests changed the store.
  -- A call that gives no value changes nothing itself, and no call panics.
  pub record IsApi : Type 1 where
    pub stored : W → Kv
    pub Apart : W → W → Type 0
    pub apart_refl : (w : W) → Apart w w
    pub apart_trans : (u v w : W) → Apart u v → Apart v w → Apart u w
    pub get_ok :
        (k : String) (w : W) {d : Option Doc} {w' : W}
        → kv_get k w ≡ (ok d, w')
        → Apart w w' × (d ≡ stored w' k)
    pub get_fails :
        (k : String) (w : W) {e : String} {w' : W} → kv_get k w ≡ (fails e, w') → Apart w w'
    pub get_returns : (k : String) (w : W) {w' : W} → kv_get k w ≡ (panics, w') → ⊥
    pub cas_true :
        (k : String) (old : Option Doc) (d : Doc) (w : W) {w' : W}
        → kv_compare_and_set k old d w ≡ (ok true, w')
        → (mid : W) × Apart w mid
          × (stored mid k ≡ old)
          × (stored w' ≡ update k (some d) (stored mid))
    pub cas_false :
        (k : String) (old : Option Doc) (d : Doc) (w : W) {w' : W}
        → kv_compare_and_set k old d w ≡ (ok false, w')
        → Apart w w'
    pub cas_fails :
        (k : String) (old : Option Doc) (d : Doc) (w : W) {e : String} {w' : W}
        → kv_compare_and_set k old d w ≡ (fails e, w')
        → Apart w w'
    pub cas_returns :
        (k : String) (old : Option Doc) (d : Doc) (w : W) {w' : W}
        → kv_compare_and_set k old d w ≡ (panics, w')
        → ⊥
