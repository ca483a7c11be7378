-- ===== src/Tally/Accumulate.antt =====
-- accumulate_contest of tally.py adds each selection of a ballot to the tally of its id.
use electionguard_python.Prelude.{◌≡◌, false, Option, some, List, [], ◌∷◌, map}
use electionguard_python.Prelude.Digits.{Text}
use electionguard_python.Prelude.Dict.{Dict, lookup, contains}
use electionguard_python.Elgamal.{ElGamalCiphertext}
use electionguard_python.Ballot.Selection.{CiphertextBallotSelection}
use electionguard_python.Tally.{
  CiphertextTallySelection, with_ciphertext, accumulated, find_selection, accumulate_selections,
}

-- A dict whose keys differ.
abbrev pub Unique : Dict CiphertextTallySelection → Type 0
Unique [] = Unit
Unique ((k, s) ∷ d) = (contains k d ≡ false) × Unique d

module _ (selections : List CiphertextBallotSelection) where
  abbrev results_of : Dict CiphertextTallySelection → List (Text × Option ElGamalCiphertext)
  results_of d = map (λ entry. accumulate_selections entry.0 entry.1 selections) d

  -- What the loop leaves for an id: the sum of what it had and of the ballot's selection.
  IsAdded : Text → CiphertextTallySelection → Dict CiphertextTallySelection → Type 0
  IsAdded k t after =
      (s : CiphertextBallotSelection) × (find_selection k selections ≡ some s)
      × (lookup k after ≡ some (with_ciphertext (accumulated s.ciphertext t) t))
