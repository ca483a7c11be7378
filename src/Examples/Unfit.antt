-- ===== src/Examples/Unfit.antt =====
-- An example for a batch with a ballot that is cast and not valid: the contest of its style is missing.
use electionguard_python.Prelude.{◌≡◌, refl, true, false, ◌||◌, [], ◌∷◌, any}
use electionguard_python.Prelude.Result.{ok}
use electionguard_python.Prelude.Digits.{codes}
use electionguard_python.Prelude.Texts.{eq_text}
use electionguard_python.Prelude.Dict.{contains, lookup}
use electionguard_python.Election.Internal.{
  get_contests_for, get_ballot_style, find_style, contests_in,
}
use electionguard_python.Ballot.Accepted.{BallotBoxState, CiphertextAcceptedBallot}
use electionguard_python.BallotValidator.{
  use_contest, contests_are_valid, ballot_is_valid_for_style, ballot_is_valid_for_election,
}
use electionguard_python.Tally.{CiphertextTally, member}
use electionguard_python.Tally.Ballots.{new_tally, append, is_tallied}
use electionguard_python.Tally.Batch.{batch_append, collect_ballots}
use electionguard_python.Tally.Batch.Invalid.{has_cast, batch_append-invalid}
use electionguard_python.Examples.StandIns.{gmp, sha256}
use electionguard_python.Examples.Ballots.{context}
use electionguard_python.Examples.Style.{metadata, ballot}

abbrev unfit : CiphertextAcceptedBallot
unfit = record { ballot = record ballot { contests = [] }; state = BallotBoxState.cast }

abbrev tally : CiphertextTally
tally = new_tally sha256 (codes "election-results") metadata context

unfit-invalid :
    ballot_is_valid_for_election gmp sha256 unfit.ballot tally.metadata tally.encryption ≡ ok false
unfolding ballot_is_valid_for_election ballot_is_valid_for_style contests_are_valid use_contest
    get_contests_for get_ballot_style find_style contests_in eq_text any new_tally
unfit-invalid = refl

abbrev after : CiphertextTally
after = (batch_append gmp sha256 (unfit ∷ []) tally).1

unfit-batch : (batch_append gmp sha256 (unfit ∷ []) tally).0 ≡ ok true
unfolding batch_append collect_ballots is_tallied member contains lookup new_tally any
unfit-batch = rw (unfit-invalid, batch_append, collect_ballots)

batch_append-invalid_example :
    (after.cast ≡ (batch_append gmp sha256 [] tally).1.cast)
    × (member (codes "b") after.cast_ballot_ids
        ≡ (has_cast (codes "b") (unfit ∷ []) || member (codes "b") tally.cast_ballot_ids))
    × (append gmp sha256 unfit after ≡ (ok false, after))
batch_append-invalid_example =
    batch_append-invalid gmp sha256 [] [] unfit unfit (codes "b") tally after unfit-invalid refl
      refl (λ i. (unfit-batch i, after))
