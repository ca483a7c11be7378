-- ===== src/Ballot/Accepted.antt =====
-- ballot.py: the ballots that the ballot box accepts, which carry no nonces.
pub mod Strip
pub mod Laws
use electionguard_python.Prelude.{Option, none, some, List, [], ◌∷◌, map}
use electionguard_python.Prelude.Int.{ℤ}
use electionguard_python.Prelude.Digits.{Text}
use electionguard_python.External.{Sha256}
use electionguard_python.Group.{ElementModQ}
use electionguard_python.Ballot.Selection.{CiphertextBallotSelection, hash_or}
use electionguard_python.Ballot.Contest.{CiphertextBallotContest}
use electionguard_python.Tracker.{get_rotating_tracker_hash}
use electionguard_python.Ballot.Ciphertext.{CiphertextBallot, contests_hash, time_or}

pub data BallotBoxState : Type 0 where
  cast spoiled unknown : BallotBoxState

-- The fields that the subclass inherits are those of `ballot`.
pub record CiphertextAcceptedBallot : Type 0 where
  pub ballot : CiphertextBallot
  pub state : BallotBoxState

-- replace(selection, nonce=None)
unfoldable pub strip_selection : CiphertextBallotSelection → CiphertextBallotSelection
strip_selection s = record {
  object_id = s.object_id;
  description_hash = s.description_hash;
  ciphertext = s.ciphertext;
  crypto_hash = s.crypto_hash;
  is_placeholder_selection = s.is_placeholder_selection;
  nonce = none;
  proof = s.proof;
  extended_data = s.extended_data;
}

-- replace(contest, nonce=None, ballot_selections=new_selections)
unfoldable pub strip_contest : CiphertextBallotContest → CiphertextBallotContest
strip_contest c = record {
  object_id = c.object_id;
  description_hash = c.description_hash;
  ballot_selections = map strip_selection c.ballot_selections;
  crypto_hash = c.crypto_hash;
  nonce = none;
  proof = c.proof;
}

module _ (sha256 : Sha256) where
  unfoldable pub make_ciphertext_accepted_ballot :
      ℤ
      → Text
      → Text
      → ElementModQ
      → Option ElementModQ
      → List CiphertextBallotContest
      → Option ElementModQ
      → Option ℤ
      → BallotBoxState
      → CiphertextAcceptedBallot
  make_ciphertext_accepted_ballot now object_id ballot_style description_hash previous_tracking_hash
        contests tracking_hash timestamp state =
      let contest_hash = contests_hash sha256 object_id description_hash contests in
      let time = time_or timestamp now in
      let previous = hash_or previous_tracking_hash description_hash in
      record {
        ballot = record {
          object_id = object_id;
          ballot_style = ballot_style;
          description_hash = description_hash;
          previous_tracking_hash = previous;
          contests = map strip_contest contests;
          tracking_hash =
              some (
                hash_or tracking_hash
                  (get_rotating_tracker_hash sha256 previous time contest_hash));
          timestamp = time;
          crypto_hash = contest_hash;
          nonce = none;
        };
        state = state;
      }

  unfoldable pub from_ciphertext_ballot :
      ℤ → CiphertextBallot → BallotBoxState → CiphertextAcceptedBallot
  from_ciphertext_ballot now b state =
      make_ciphertext_accepted_ballot now b.object_id b.ballot_style b.description_hash
        (some b.previous_tracking_hash) b.contests b.tracking_hash (some b.timestamp) state
