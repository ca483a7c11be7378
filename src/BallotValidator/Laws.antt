-- ===== src/BallotValidator/Laws.antt =====
-- What a ballot has that ballot_validator.py finds valid for its style.
use electionguard_python.Prelude.{◌+◌, ◌≡◌, some, List, [], ◌∷◌, length}
use electionguard_python.External.{Sha256}
use electionguard_python.Election.{
  SelectionDescription, ContestDescriptionWithPlaceholders, selection_hash, contest_hash,
}
use electionguard_python.Ballot.Selection.{CiphertextBallotSelection}
use electionguard_python.Ballot.Contest.{CiphertextBallotContest}
use electionguard_python.BallotValidator.{use_contest, use_selection}

module _ (sha256 : Sha256) where
  -- For each selection that is described, the first of the selections with its id has its hash.
  abbrev pub HasSelections : List CiphertextBallotSelection → List SelectionDescription → Type 0
  HasSelections selections [] = Unit {0}
  HasSelections selections (d ∷ descriptions) =
      ((s : CiphertextBallotSelection) × (use_selection d.object_id selections ≡ some s)
        × (d.object_id ≡ s.object_id)
        × (s.description_hash ≡ selection_hash sha256 d))
      × HasSelections selections descriptions

  -- For each contest that is described, the first of the contests with its id has its hash, as many
  -- selections as are described with the placeholders, and the selections that are described.
  abbrev pub HasContests :
      List CiphertextBallotContest → List ContestDescriptionWithPlaceholders → Type 0
  HasContests contests [] = Unit {0}
  HasContests contests (d ∷ descriptions) =
      ((c : CiphertextBallotContest) × (use_contest d.description.object_id contests ≡ some c)
        × (d.description.object_id ≡ c.object_id)
        × (c.description_hash ≡ contest_hash sha256 d.description)
        × (length c.ballot_selections
            ≡ length d.description.ballot_selections + length d.placeholder_selections)
        × HasSelections c.ballot_selections d.description.ballot_selections)
      × HasContests contests descriptions
