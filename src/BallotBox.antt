-- ===== src/BallotBox.antt =====
-- ballot_box.py: casting and spoiling ballots against a ballot store.
pub mod Accept
pub mod Reachable
use electionguard_python.Prelude.{Bool, true, false, Option, none, some}
use electionguard_python.Prelude.Int.{ℤ}
use electionguard_python.Prelude.Result.{Result, ok, raise}
use electionguard_python.External.{Gmp, Sha256}
use electionguard_python.Election.Internal.{InternalElectionDescription, CiphertextElectionContext}
use electionguard_python.Ballot.Ciphertext.{CiphertextBallot}
use electionguard_python.Ballot.Accepted.{
  BallotBoxState, CiphertextAcceptedBallot, from_ciphertext_ballot,
}
use electionguard_python.BallotValidator.{ballot_is_valid_for_election}
use electionguard_python.BallotStore.{BallotStore, set, get, exists}

-- What a call returns or raises, and the store after it.
abbrev pub Outcome : Type 0
Outcome = Result (Option CiphertextAcceptedBallot) × BallotStore

-- ballot_exists and existing_ballot is not None
abbrev pub already : Bool × Option CiphertextAcceptedBallot → Bool
already (true, some existing) = true
already (true, none) = false
already (false, existing) = false

pub record BallotBox : Type 0 where
  pub metadata : InternalElectionDescription
  pub encryption : CiphertextElectionContext
  pub store : BallotStore

abbrev in_box : BallotBox → Outcome → Result (Option CiphertextAcceptedBallot) × BallotBox
in_box box (result, store) =
    (result, record { metadata = box.metadata; encryption = box.encryption; store = store })

module _ (gmp : Gmp) (sha256 : Sha256) where
  -- `now` is what the clock says.
  unfoldable pub accept_ballot :
      ℤ
      → CiphertextBallot
      → BallotBoxState
      → InternalElectionDescription
      → CiphertextElectionContext
      → BallotStore
      → Outcome
  accept_ballot now ballot state metadata context store =
      elim (ballot_is_valid_for_election gmp sha256 ballot metadata context) [
        | raise e ↦ (Result.raise e, store)
        | ok false ↦ (Result.ok none, store)
        | ok true ↦ elim (already (exists ballot.object_id store)) [
          | true ↦ (Result.ok none, store)
          | false ↦
              let accepted = from_ciphertext_ballot sha256 now ballot state in
              let after = (set accepted.ballot.object_id (some accepted) store).1 in
              (Result.ok (get accepted.ballot.object_id after), after)
        ]
      ]

  unfoldable pub cast :
      ℤ → CiphertextBallot → BallotBox → Result (Option CiphertextAcceptedBallot) × BallotBox
  cast now ballot box =
      in_box box
        (accept_ballot now ballot BallotBoxState.cast box.metadata box.encryption box.store)

  unfoldable pub spoil :
      ℤ → CiphertextBallot → BallotBox → Result (Option CiphertextAcceptedBallot) × BallotBox
  spoil now ballot box =
      in_box box
        (accept_ballot now ballot BallotBoxState.spoiled box.metadata box.encryption box.store)
