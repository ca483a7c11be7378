-- ===== src/DataStore/Laws.antt =====
-- What is set in the store of data_store.py is found and popped.
use electionguard_python.Prelude.{◌≡◌, refl, none, some, [], ◌∷◌, arith, if◌then◌else◌}
use electionguard_python.Prelude.Digits.{Text}
use electionguard_python.Prelude.Texts.{eq_text, eq_text_self, eq_text→eq}
use electionguard_python.Prelude.Dict.{Dict, lookup, put, contains, lookup-put, lookup-put_self}
use electionguard_python.DataStore.{DataStore, remove, get, set, pop}

module _ {ℓ} {A : Type ℓ} where
  lookup-remove :
      (key other : Text) (d : Dict A)
      → lookup other (remove key d) ≡ (if eq_text key other then none else lookup other d)
  unfolding lookup remove
  lookup-remove key other [] = ground arith
  lookup-remove key other ((k, v) ∷ d) = ground (
    arith,
    lookup-remove key other d,
    eq_text→eq k key,
    eq_text→eq k other,
    eq_text→eq key other,
    eq_text_self key,
    eq_text_self other,
  )

  lookup-remove-put :
      (key other : Text) (value : A) (d : Dict A)
      → lookup other (remove key (put key value d))
        ≡ (if eq_text key other then none else lookup other d)
  lookup-remove-put key other value d =
      ground (arith, lookup-remove key other (put key value d), lookup-put key other value d)

  -- Popping a key that was just set returns the value. Then the key is gone, and the store has for
  -- every other key what it had before the key was set.
  pop-set :
      (key other : Text) (value : A) (s : DataStore A)
      → ((pop key (set key value s)).0 ≡ some value)
        × (get other (pop key (set key value s)).1
            ≡ (if eq_text key other then none else get other s))
  unfolding pop set get contains
  pop-set key other value s =
      rw (lookup-put_self key value s.store, contains, pop)
        (refl, lookup-remove-put key other value s.store)
