-- ===== src/Examples/Style.antt =====
-- An example for the validity of a ballot for its style: one contest of one selection and a placeholder.
use electionguard_python.Prelude.{◌≡◌, true, false, none, some, [], ◌∷◌, any}
use electionguard_python.Prelude.Int.{pos}
use electionguard_python.Prelude.Result.{ok}
use electionguard_python.Prelude.Digits.{codes}
use electionguard_python.Prelude.Texts.{eq_text}
use electionguard_python.Group.{mk_q}
use electionguard_python.Group.Elements.{eq_q_self}
use electionguard_python.Election.{
  VoteVariationType, SelectionDescription, ContestDescription, ContestDescriptionWithPlaceholders,
  selection_hash, contest_hash,
}
use electionguard_python.Election.Internal.{
  InternalElectionDescription, placeholder, get_contests_for, get_ballot_style, find_style,
  contests_in,
}
use electionguard_python.Ballot.Selection.{CiphertextBallotSelection}
use electionguard_python.Ballot.Contest.{CiphertextBallotContest}
use electionguard_python.Ballot.Ciphertext.{CiphertextBallot}
use electionguard_python.BallotValidator.{
  use_contest, use_selection, selection_is_valid_for_style, contest_is_valid_for_style,
  selections_are_valid, contests_are_valid, ballot_is_valid_for_style,
}
use electionguard_python.Examples.StandIns.{sha256}
use electionguard_python.Examples.Crypto.{vote}

abbrev described : SelectionDescription
described = record { object_id = codes "a"; candidate_id = codes "x"; sequence_order = pos 0 }

abbrev contest_described : ContestDescription
contest_described = record {
  object_id = codes "c";
  electoral_district_id = codes "u";
  sequence_order = pos 0;
  vote_variation = VoteVariationType.one_of_m;
  number_elected = pos 1;
  votes_allowed = some (pos 1);
  name = codes "contest";
  ballot_selections = described ∷ [];
  ballot_title = none;
  ballot_subtitle = none;
}

abbrev pub with_placeholders : ContestDescriptionWithPlaceholders
with_placeholders = record {
  description = contest_described;
  placeholder_selections = placeholder contest_described (pos 1) ∷ [];
}

abbrev pub metadata : InternalElectionDescription
metadata = record {
  contests = with_placeholders ∷ [];
  ballot_styles =
      record {
        object_id = codes "style";
        geopolitical_unit_ids = some (codes "u" ∷ []);
        party_ids = none;
        image_uri = none;
      }
      ∷ [];
  description_hash = mk_q 2;
}

abbrev selection_of : SelectionDescription → CiphertextBallotSelection
selection_of d = record {
  object_id = d.object_id;
  description_hash = selection_hash sha256 d;
  ciphertext = vote 1;
  crypto_hash = mk_q 2;
  is_placeholder_selection = false;
  nonce = none;
  proof = none;
  extended_data = none;
}

abbrev contest : CiphertextBallotContest
contest = record {
  object_id = codes "c";
  description_hash = contest_hash sha256 contest_described;
  ballot_selections =
      selection_of described ∷ selection_of (placeholder contest_described (pos 1)) ∷ [];
  crypto_hash = mk_q 2;
  nonce = none;
  proof = none;
}

abbrev pub ballot : CiphertextBallot
ballot = record {
  object_id = codes "b";
  ballot_style = codes "style";
  description_hash = mk_q 2;
  previous_tracking_hash = mk_q 2;
  contests = contest ∷ [];
  tracking_hash = none;
  timestamp = pos 5;
  crypto_hash = mk_q 2;
  nonce = none;
}

-- Both sides hold of the example.
fits : ballot_is_valid_for_style sha256 ballot metadata ≡ ok true
unfolding ballot_is_valid_for_style contests_are_valid selections_are_valid use_contest
    use_selection selection_is_valid_for_style contest_is_valid_for_style get_contests_for
    get_ballot_style find_style contests_in eq_text any
fits =
    rw (
      eq_q_self (contest_hash sha256 contest_described),
      eq_q_self (selection_hash sha256 described),
    )
