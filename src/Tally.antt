-- ===== src/Tally.antt =====
-- tally.py: the encrypted tally and its contests. The scheduler's pool is taken to work: schedule maps
-- its task over the arguments, on copies.
pub mod Ballots
pub mod Accumulate
pub mod Append
pub mod Batch
use electionguard_python.Prelude.{
  zero, suc, ◌+◌, Bool, true, false, ◌&&◌, not, Option, none, some, List, [], ◌∷◌, map, any, length,
  if◌then◌else◌, ℕ,
}
use electionguard_python.Prelude.Result.{Result, ok, raise, ◌>>=◌}
use electionguard_python.Prelude.Digits.{Text}
use electionguard_python.Prelude.Texts.{eq_text}
use electionguard_python.Prelude.Dict.{Dict, lookup, put, contains, values}
use electionguard_python.External.{Gmp, Sha256}
use electionguard_python.Group.{ElementModQ, one_mod_p}
use electionguard_python.Elgamal.{ElGamalCiphertext, elgamal_add, add_from}
use electionguard_python.Election.{
  SelectionDescription, ContestDescriptionWithPlaceholders, selection_hash, contest_hash,
}
use electionguard_python.Election.Internal.{InternalElectionDescription, CiphertextElectionContext}
use electionguard_python.Ballot.Selection.{CiphertextBallotSelection}
use electionguard_python.Ballot.Contest.{CiphertextBallotContest}
use electionguard_python.Ballot.Accepted.{BallotBoxState, CiphertextAcceptedBallot}
use electionguard_python.BallotValidator.{ballot_is_valid_for_election}
use electionguard_python.BallotStore.{is_unknown}

pub record CiphertextTallySelection : Type 0 where
  pub object_id : Text
  pub description_hash : ElementModQ
  pub ciphertext : ElGamalCiphertext

pub record CiphertextTallyContest : Type 0 where
  pub object_id : Text
  pub description_hash : ElementModQ
  pub tally_selections : Dict CiphertextTallySelection

pub record CiphertextTally : Type 0 where
  pub object_id : Text
  pub metadata : InternalElectionDescription
  pub encryption : CiphertextElectionContext
  pub cast_ballot_ids : List Text
  pub cast : Dict CiphertextTallyContest
  pub spoiled_ballots : Dict CiphertextAcceptedBallot

-- A set of ids.
unfoldable pub member : Text → List Text → Bool
member id ids = any (eq_text id) ids

unfoldable pub add_id : Text → List Text → List Text
add_id id ids = if member id ids then ids else id ∷ ids

-- elgamal_accumulate: the selection with the sum, which is also what is returned.
unfoldable pub accumulated : ElGamalCiphertext → CiphertextTallySelection → ElGamalCiphertext
accumulated c s = add_from s.ciphertext (c ∷ [])

unfoldable pub with_ciphertext :
    ElGamalCiphertext → CiphertextTallySelection → CiphertextTallySelection
with_ciphertext c s = record {
  object_id = s.object_id;
  description_hash = s.description_hash;
  ciphertext = c;
}

unfoldable pub find_selection :
    Text → List CiphertextBallotSelection → Option CiphertextBallotSelection
find_selection key [] = none
find_selection key (s ∷ selections) =
    if eq_text key s.object_id then some s else find_selection key selections

-- _accumulate_selections, on a copy of the selection.
unfoldable pub accumulate_selections :
    Text
    → CiphertextTallySelection
    → List CiphertextBallotSelection
    → Text × Option ElGamalCiphertext
unfolding find_selection accumulated
accumulate_selections key selection_tally contest_selections =
    elim (find_selection key contest_selections) [
      | none ↦ (key, none)
      | some s ↦ (key, some (accumulated s.ciphertext selection_tally))
    ]

-- The ids of the selections that are not placeholders.
unfoldable pub selection_ids : List CiphertextBallotSelection → List Text
selection_ids [] = []
selection_ids (s ∷ selections) =
    let rest = selection_ids selections in
    if s.is_placeholder_selection then rest else s.object_id ∷ rest

-- any(...) over the ids that are missing: an empty id counts as false.
unfoldable pub any_missing : List Text → Dict CiphertextTallySelection → Bool
unfolding member
any_missing ids [] = false
any_missing ids (([], s) ∷ selections) = any_missing ids selections
any_missing ids ((c ∷ key, s) ∷ selections) =
    let rest = any_missing ids selections in if member (c ∷ key) ids then rest else true

-- self.tally_selections[key].ciphertext = ciphertext
unfoldable pub assign_ciphertext :
    Text → ElGamalCiphertext → Dict CiphertextTallySelection → Dict CiphertextTallySelection
unfolding with_ciphertext
assign_ciphertext key c [] = []
assign_ciphertext key c ((k, s) ∷ selections) =
    let rest = assign_ciphertext key c selections in
    if eq_text k key then (k, with_ciphertext c s) ∷ selections else (k, s) ∷ rest

-- The loop over the results. It stops at the first that is None, and keeps what it assigned.
unfoldable pub assign_results :
    List (Text × Option ElGamalCiphertext)
    → Dict CiphertextTallySelection
    → Bool × Dict CiphertextTallySelection
unfolding assign_ciphertext
assign_results [] selections = (true, selections)
assign_results ((key, none) ∷ results) selections = (false, selections)
assign_results ((key, some c) ∷ results) selections =
    assign_results results (assign_ciphertext key c selections)

unfoldable pub accumulate_contest :
    List CiphertextBallotSelection → CiphertextTallyContest → Bool × CiphertextTallyContest
unfolding accumulate_selections any_missing assign_results selection_ids
accumulate_contest [] contest = (false, contest)
accumulate_contest (s ∷ selections) contest =
    if any_missing (selection_ids (s ∷ selections)) contest.tally_selections
    then (false, contest)
    else let results =
        map (λ entry. accumulate_selections entry.0 entry.1 (s ∷ selections))
          contest.tally_selections in
      let (success, after) = assign_results results contest.tally_selections in
      (
        success,
        record {
          object_id = contest.object_id;
          description_hash = contest.description_hash;
          tally_selections = after;
        },
      )

-- The loop of _add_cast. Where it fails, the contests before keep the ballot's selections.
unfoldable pub accumulate_contests :
    List CiphertextBallotContest → Dict CiphertextTallyContest → Bool × Dict CiphertextTallyContest
unfolding accumulate_contest
accumulate_contests [] cast = (true, cast)
accumulate_contests (c ∷ contests) cast = elim (lookup c.object_id cast) [
  | none ↦ (false, cast)
  | some use_contest ↦
      let (success, after) = accumulate_contest c.ballot_selections use_contest in
      elim success [
        | false ↦ (false, put c.object_id after cast)
        | true ↦ accumulate_contests contests (put c.object_id after cast)
      ]
]
