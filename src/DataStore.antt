-- ===== src/DataStore.antt =====
-- data_store.py: a dict with an interface of its own, here with texts for keys.
pub mod Laws
use electionguard_python.Prelude.{
  Bool, true, false, Option, none, some, List, [], ◌∷◌, map, length, if◌then◌else◌, ℕ,
}
use electionguard_python.Prelude.Digits.{Text}
use electionguard_python.Prelude.Texts.{eq_text}
use electionguard_python.Prelude.Dict.{Dict, lookup, put, contains}
use electionguard_python.Prelude.Dict

pub record DataStore {ℓ} (A : Type ℓ) : Type ℓ where
  pub store : Dict A

module _ {ℓ} {A : Type ℓ} where
  -- del d[key]
  unfoldable pub remove : Text → Dict A → Dict A
  remove key [] = []
  remove key ((k, v) ∷ d) = let rest = remove key d in if eq_text k key then rest else (k, v) ∷ rest

  unfoldable pub clear : DataStore A → DataStore A
  clear s = record { store = [] }

  unfoldable pub get : Text → DataStore A → Option A
  get key s = lookup key s.store

  unfoldable pub items : DataStore A → List (Text × A)
  items s = s.store

  unfoldable pub keys : DataStore A → List Text
  keys s = map (λ entry. entry.0) s.store

  unfoldable pub values : DataStore A → List A
  values s = Dict.values s.store

  unfoldable pub size : DataStore A → ℕ
  size s = length s.store

  unfoldable pub set : Text → A → DataStore A → DataStore A
  set key value s = record { store = put key value s.store }

  -- What is popped, and the store after it.
  unfoldable pub pop : Text → DataStore A → Option A × DataStore A
  unfolding remove
  pop key s =
      if contains key s.store
      then (lookup key s.store, record { store = remove key s.store })
      else (none, s)
