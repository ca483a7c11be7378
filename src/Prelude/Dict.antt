-- ===== src/Prelude/Dict.antt =====
-- Python's dict with texts for keys: an association list in the order of insertion.
use mathlib.Core.Path.{◌≡◌, refl}
use mathlib.Core.Bool.{Bool, true, false}
use mathlib.Core.Option.{Option, none, some}
use mathlib.Core.List.{List, [], ◌∷◌}
use native.Mathlib.Omega.{arith}
use electionguard_python.Prelude.Tests.{if◌then◌else◌}
use electionguard_python.Prelude.Digits.{Text}
use electionguard_python.Prelude.Texts.{eq_text, eq_text_self, eq_text→eq}

abbrev pub Dict {ℓ} : Type ℓ → Type ℓ
Dict A = List (Text × A)

module _ {ℓ} {A : Type ℓ} where
  unfoldable pub lookup : Text → Dict A → Option A
  lookup key [] = none
  lookup key ((k, v) ∷ d) = if eq_text k key then some v else lookup key d

  -- d[key] = value: a key that is there keeps its place.
  unfoldable pub put : Text → A → Dict A → Dict A
  put key value [] = (key, value) ∷ []
  put key value ((k, v) ∷ d) =
      let rest = put key value d in if eq_text k key then (k, value) ∷ d else (k, v) ∷ rest

  unfoldable pub contains : Text → Dict A → Bool
  unfolding lookup
  contains key d = elim (lookup key d) [ none ↦ false | some v ↦ true ]

  abbrev pub values : Dict A → List A
  values [] = []
  values ((k, v) ∷ d) = v ∷ values d

  pub lookup-put :
      (key other : Text) (value : A) (d : Dict A)
      → lookup other (put key value d) ≡ (if eq_text key other then some value else lookup other d)
  unfolding lookup put
  lookup-put key other value [] = refl
  lookup-put key other value ((k, v) ∷ d) = ground (
    arith,
    lookup-put key other value d,
    eq_text→eq k key,
    eq_text→eq k other,
    eq_text→eq key other,
    eq_text_self key,
    eq_text_self other,
  )

  pub lookup-put_self :
      (key : Text) (value : A) (d : Dict A) → lookup key (put key value d) ≡ some value
  lookup-put_self key value d = ground (arith, lookup-put key key value d, eq_text_self key)
