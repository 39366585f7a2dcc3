-- ===== src/Server/Action.antt =====
-- A Go function over a state: it returns a value, returns an error, or panics.
use mattermost_plugin_todo.Prelude.{String}

pub data Outcome {ℓ} (A : Type ℓ) : Type ℓ where
  ok : A → Outcome A
  fails : String → Outcome A
  panics : Outcome A

abbrev pub Action : Type 0 → Type 0 → Type 0
Action W A = W → Outcome A × W

-- The rest runs only after a value: Go's `if err != nil { return ..., err }`.
abbrev pub after : {W A B : Type 0} → (A → Action W B) → Outcome A × W → Outcome B × W
after f (ok a, w) = f a w
after f (fails e, w) = (fails e, w)
after f (panics, w) = (panics, w)

infixl 5 ◌>>=◌ ◌>>◌
abbrev pub ◌>>=◌ : {W A B : Type 0} → Action W A → (A → Action W B) → Action W B
◌>>=◌ m f w = after f (m w)

abbrev pub ◌>>◌ : {W B : Type 0} → Action W (Unit {0}) → Action W B → Action W B
m >> k = m >>= λ _. k

abbrev pub lift : {W A : Type 0} → Outcome A → Action W A
lift o w = (o, w)

abbrev pub return : {W A : Type 0} → A → Action W A
return a w = (ok a, w)

abbrev pub raise : {W A : Type 0} → String → Action W A
raise e w = (fails e, w)

-- A call whose error the caller handles itself; a panic goes on.
abbrev pub answer : {A : Type 0} → Outcome A → Outcome (Outcome A)
answer (ok a) = ok (ok a)
answer (fails e) = ok (fails e)
answer panics = panics

abbrev pub attempt : {W A : Type 0} → Action W A → Action W (Outcome A)
attempt m w = (answer (m w).0, (m w).1)

-- `m`, and `rollback` where `m` returns an error, which is returned all the same.
abbrev pub recover : {W A : Type 0} → Action W (Unit {0}) → Outcome A × W → Outcome A × W
recover rollback (ok a, w) = (ok a, w)
recover rollback (fails e, w) = (rollback >> raise e) w
recover rollback (panics, w) = (panics, w)

abbrev pub on_error : {W A : Type 0} → Action W A → Action W (Unit {0}) → Action W A
on_error m rollback w = recover rollback (m w)
