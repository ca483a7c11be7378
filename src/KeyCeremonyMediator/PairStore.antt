-- ===== src/KeyCeremonyMediator/PairStore.antt =====
-- key_ceremony.py and data_store.py: data stores whose keys are pairs of guardians.
use electionguard_python.Prelude.{Bool, ◌&&◌, Option, none, some, List, [], ◌∷◌, map, if◌then◌else◌}
use electionguard_python.Prelude.Digits.{Text}
use electionguard_python.Prelude.Texts.{eq_text}

pub record GuardianPair : Type 0 where
  pub owner_id : Text
  pub designated_id : Text

unfoldable pub eq_pair : GuardianPair → GuardianPair → Bool
eq_pair p q = eq_text p.owner_id q.owner_id && eq_text p.designated_id q.designated_id

abbrev pub Pairs : Type 0 → Type 0
Pairs A = List (GuardianPair × A)

module _ {A : Type 0} where
  unfoldable pub get_pair : GuardianPair → Pairs A → Option A
  get_pair p [] = none
  get_pair p ((q, v) ∷ d) = if eq_pair q p then some v else get_pair p d

  -- A key that is there keeps its place.
  unfoldable pub set_pair : GuardianPair → A → Pairs A → Pairs A
  set_pair p value [] = (p, value) ∷ []
  set_pair p value ((q, v) ∷ d) =
      let rest = set_pair p value d in if eq_pair q p then (q, value) ∷ d else (q, v) ∷ rest

  abbrev pub pair_values : Pairs A → List A
  pair_values = map (λ entry. entry.1)
