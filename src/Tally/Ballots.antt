-- ===== src/Tally/Ballots.antt =====
-- tally.py: the tally of an election, to which ballots are appended one by one.
use electionguard_python.Prelude.{
  ◌+◌, Bool, true, false, Option, none, some, List, [], ◌∷◌, length, if◌then◌else◌, ℕ,
}
use electionguard_python.Prelude.Result.{Result, ok, raise}
use electionguard_python.Prelude.Digits.{Text}
use electionguard_python.Prelude.Dict.{Dict, put, contains}
use electionguard_python.External.{Gmp, Sha256}
use electionguard_python.Group.{one_mod_p}
use electionguard_python.Election.{
  SelectionDescription, ContestDescriptionWithPlaceholders, selection_hash, contest_hash,
}
use electionguard_python.Election.Internal.{InternalElectionDescription, CiphertextElectionContext}
use electionguard_python.Ballot.Accepted.{BallotBoxState, CiphertextAcceptedBallot}
use electionguard_python.BallotValidator.{ballot_is_valid_for_election}
use electionguard_python.BallotStore.{is_unknown}
use electionguard_python.Tally.{
  CiphertextTally, CiphertextTallyContest, CiphertextTallySelection, accumulate_contests, add_id,
  member,
}

-- The tally with other contests, with one more id cast, and with one more ballot spoiled.
unfoldable pub with_cast : Dict CiphertextTallyContest → CiphertextTally → CiphertextTally
with_cast cast t = record {
  object_id = t.object_id;
  metadata = t.metadata;
  encryption = t.encryption;
  cast_ballot_ids = t.cast_ballot_ids;
  cast = cast;
  spoiled_ballots = t.spoiled_ballots;
}

unfoldable pub with_id : Text → CiphertextTally → CiphertextTally
with_id id t = record {
  object_id = t.object_id;
  metadata = t.metadata;
  encryption = t.encryption;
  cast_ballot_ids = add_id id t.cast_ballot_ids;
  cast = t.cast;
  spoiled_ballots = t.spoiled_ballots;
}

unfoldable pub add_cast : CiphertextAcceptedBallot → CiphertextTally → Bool × CiphertextTally
unfolding accumulate_contests with_cast with_id
add_cast b t =
    let (success, cast) = accumulate_contests b.ballot.contests t.cast in
    if success
    then (true, with_id b.ballot.object_id (with_cast cast t))
    else (false, with_cast cast t)

unfoldable pub add_spoiled : CiphertextAcceptedBallot → CiphertextTally → CiphertextTally
add_spoiled b t = record {
  object_id = t.object_id;
  metadata = t.metadata;
  encryption = t.encryption;
  cast_ballot_ids = t.cast_ballot_ids;
  cast = t.cast;
  spoiled_ballots = put b.ballot.object_id b t.spoiled_ballots;
}

-- __contains__, __len__ and count
unfoldable pub is_tallied : CiphertextAcceptedBallot → CiphertextTally → Bool
is_tallied b t =
    if member b.ballot.object_id t.cast_ballot_ids
    then true
    else contains b.ballot.object_id t.spoiled_ballots

unfoldable pub size : CiphertextTally → ℕ
size t = length t.cast_ballot_ids + length t.spoiled_ballots

unfoldable pub count : CiphertextTally → ℕ
count t = length t.cast_ballot_ids

-- append, for a valid ballot in a state.
unfoldable pub append_valid :
    BallotBoxState → CiphertextAcceptedBallot → CiphertextTally → Result Bool × CiphertextTally
unfolding add_cast add_spoiled
append_valid BallotBoxState.cast b t =
    let (success, after) = add_cast b t in (Result.ok success, after)
append_valid BallotBoxState.spoiled b t = (Result.ok true, add_spoiled b t)
append_valid BallotBoxState.unknown b t = (Result.ok false, t)

module _ (gmp : Gmp) (sha256 : Sha256) where
  unfoldable pub append : CiphertextAcceptedBallot → CiphertextTally → Result Bool × CiphertextTally
  append b t =
      if is_unknown b.state
      then (Result.ok false, t)
      else if is_tallied b t
      then (Result.ok false, t)
      else elim (ballot_is_valid_for_election gmp sha256 b.ballot t.metadata t.encryption) [
        | raise e ↦ (Result.raise e, t)
        | ok false ↦ (Result.ok false, t)
        | ok true ↦ append_valid b.state b t
      ]

  unfoldable pub tally_ballot :
      CiphertextAcceptedBallot → CiphertextTally → Result (Option CiphertextTally) × CiphertextTally
  tally_ballot b t =
      if is_unknown b.state
      then (Result.ok none, t)
      else let (result, after) = append b t in
        elim result [
          | raise e ↦ (Result.raise e, after)
          | ok true ↦ (Result.ok (some after), after)
          | ok false ↦ (Result.ok none, after)
        ]

-- _build_tally_collection
unfoldable pub tally_selections_of :
    Sha256
    → List SelectionDescription
    → Dict CiphertextTallySelection
    → Dict CiphertextTallySelection
tally_selections_of sha256 [] built = built
tally_selections_of sha256 (s ∷ selections) built = tally_selections_of sha256 selections (
    put s.object_id
      (record {
        object_id = s.object_id;
        description_hash = selection_hash sha256 s;
        ciphertext = record { pad = one_mod_p; encrypted_data = one_mod_p };
      })
      built)

unfoldable pub tally_collection :
    Sha256
    → List ContestDescriptionWithPlaceholders
    → Dict CiphertextTallyContest
    → Dict CiphertextTallyContest
unfolding tally_selections_of
tally_collection sha256 [] built = built
tally_collection sha256 (c ∷ contests) built = tally_collection sha256 contests (
    put c.description.object_id
      (record {
        object_id = c.description.object_id;
        description_hash = contest_hash sha256 c.description;
        tally_selections = tally_selections_of sha256 c.description.ballot_selections [];
      })
      built)

unfoldable pub new_tally :
    Sha256 → Text → InternalElectionDescription → CiphertextElectionContext → CiphertextTally
unfolding tally_collection
new_tally sha256 object_id metadata context = record {
  object_id = object_id;
  metadata = metadata;
  encryption = context;
  cast_ballot_ids = [];
  cast = tally_collection sha256 metadata.contests [];
  spoiled_ballots = [];
}
