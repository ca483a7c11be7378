-- ===== src/BallotValidator.antt =====
-- ballot_validator.py: whether a ballot fits the contests of its style and is validly encrypted.
pub mod Laws
use electionguard_python.Prelude.{
  ◌+◌, ◌==◌, Bool, true, false, not, Option, none, some, List, [], ◌∷◌, length, if◌then◌else◌,
}
use electionguard_python.Prelude.Result.{Result, ok, raise, ◌>>=◌}
use electionguard_python.Prelude.Digits.{Text}
use electionguard_python.Prelude.Texts.{eq_text}
use electionguard_python.External.{Gmp, Sha256}
use electionguard_python.Group.{eq_q}
use electionguard_python.Election.{
  SelectionDescription, ContestDescriptionWithPlaceholders, selection_hash, contest_hash,
}
use electionguard_python.Election.Internal.{
  InternalElectionDescription, CiphertextElectionContext, get_contests_for,
}
use electionguard_python.Ballot.Selection.{CiphertextBallotSelection}
use electionguard_python.Ballot.Contest.{CiphertextBallotContest}
use electionguard_python.Ballot.Ciphertext.{CiphertextBallot, is_valid_encryption}

-- The first contest of a ballot, and the first selection of a contest, with an id.
unfoldable pub use_contest : Text → List CiphertextBallotContest → Option CiphertextBallotContest
use_contest object_id [] = none
use_contest object_id (c ∷ contests) =
    if eq_text object_id c.object_id then some c else use_contest object_id contests

unfoldable pub use_selection :
    Text → List CiphertextBallotSelection → Option CiphertextBallotSelection
use_selection object_id [] = none
use_selection object_id (s ∷ selections) =
    if eq_text object_id s.object_id then some s else use_selection object_id selections

module _ (sha256 : Sha256) where
  unfoldable pub selection_is_valid_for_style :
      CiphertextBallotSelection → SelectionDescription → Bool
  selection_is_valid_for_style selection description =
      eq_q selection.description_hash (selection_hash sha256 description)

  unfoldable pub contest_is_valid_for_style :
      CiphertextBallotContest → ContestDescriptionWithPlaceholders → Bool
  contest_is_valid_for_style contest description =
      if not (eq_q contest.description_hash (contest_hash sha256 description.description))
      then false
      else length contest.ballot_selections
        == length description.description.ballot_selections
          + length description.placeholder_selections

  -- The loop over the selections that are described.
  unfoldable pub selections_are_valid :
      List CiphertextBallotSelection → List SelectionDescription → Bool
  unfolding use_selection selection_is_valid_for_style
  selections_are_valid selections [] = true
  selections_are_valid selections (d ∷ descriptions) =
      let rest = selections_are_valid selections descriptions in
      elim (use_selection d.object_id selections) [
        | none ↦ false
        | some selection ↦ if not (selection_is_valid_for_style selection d) then false else rest
      ]

  -- The loop over the contests that are described.
  unfoldable pub contests_are_valid :
      List CiphertextBallotContest → List ContestDescriptionWithPlaceholders → Bool
  unfolding use_contest contest_is_valid_for_style selections_are_valid
  contests_are_valid contests [] = true
  contests_are_valid contests (d ∷ descriptions) =
      let rest = contests_are_valid contests descriptions in
      elim (use_contest d.description.object_id contests) [
        | none ↦ false
        | some contest ↦
            if not (contest_is_valid_for_style contest d)
            then false
            else if not
                (selections_are_valid contest.ballot_selections d.description.ballot_selections)
            then false
            else rest
      ]

  unfoldable pub ballot_is_valid_for_style :
      CiphertextBallot → InternalElectionDescription → Result Bool
  ballot_is_valid_for_style ballot metadata = do
    descriptions ← get_contests_for metadata ballot.ballot_style
    ok (contests_are_valid ballot.contests descriptions)

module _ (gmp : Gmp) (sha256 : Sha256) where
  unfoldable pub ballot_is_valid_for_election :
      CiphertextBallot → InternalElectionDescription → CiphertextElectionContext → Result Bool
  ballot_is_valid_for_election ballot metadata context = do
    fits ← ballot_is_valid_for_style sha256 ballot metadata
    if not fits
        then ok false
        else is_valid_encryption gmp sha256 ballot metadata.description_hash
            context.elgamal_public_key context.crypto_extended_base_hash
