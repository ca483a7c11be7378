-- ===== src/Examples/Count.antt =====
-- Examples for the tally and for the polynomials of the guardians.
use electionguard_python.Prelude.{◌≡◌, refl, true, false, some, [], ◌∷◌, any}
use electionguard_python.Prelude.Int.{pos}
use electionguard_python.Prelude.Result.{ok}
use electionguard_python.Prelude.Digits.{codes}
use electionguard_python.Prelude.Dict.{contains, lookup}
use electionguard_python.Modular.{one_pow}
use electionguard_python.Group.Constants.{one-lt-P, one-lt-Q}
use electionguard_python.Group.{ElementModQ}
use electionguard_python.Ballot.Ciphertext.{make_ciphertext_ballot}
use electionguard_python.Ballot.Accepted.{
  BallotBoxState, CiphertextAcceptedBallot, from_ciphertext_ballot, make_ciphertext_accepted_ballot,
}
use electionguard_python.Ballot.Accepted.Laws.{from_ciphertext_ballot-is_valid_encryption}
use electionguard_python.BallotValidator.{ballot_is_valid_for_election}
use electionguard_python.BallotStore.{is_unknown}
use electionguard_python.ElectionPolynomial.{
  generate_polynomial, compute_polynomial_coordinate, verify_polynomial_coordinate,
}
use electionguard_python.ElectionPolynomial.Verify.{verify-compute_polynomial_coordinate}
use electionguard_python.Tally.{CiphertextTally, member}
use electionguard_python.Tally.Ballots.{new_tally, append, append_valid, is_tallied}
use electionguard_python.Tally.Append.{append_twice}
use electionguard_python.Tally.Batch.{batch_append, collect_ballots, collect_valid}
use electionguard_python.Tally.Batch.Twice.{batch_append_twice}
use electionguard_python.Examples.StandIns.{gmp, gmp_laws, sha256}
use electionguard_python.Examples.Crypto.{pair}
use electionguard_python.Examples.Ballots.{
  two, contest, ballot, ballot-valid, metadata, context, valid_for_election,
}

abbrev tally : CiphertextTally
tally = new_tally sha256 (codes "election-results") metadata context

abbrev cast_ballot : CiphertextAcceptedBallot
cast_ballot = from_ciphertext_ballot sha256 (pos 6) ballot BallotBoxState.cast

abbrev spoiled_ballot : CiphertextAcceptedBallot
spoiled_ballot = from_ciphertext_ballot sha256 (pos 6) ballot BallotBoxState.spoiled

accepted-valid :
    (state : BallotBoxState)
    → ballot_is_valid_for_election gmp sha256
        (from_ciphertext_ballot sha256 (pos 6) ballot state).ballot
        metadata
        context
      ≡ ok true
unfolding make_ciphertext_ballot
accepted-valid state =
    let facts =
      from_ciphertext_ballot-is_valid_encryption gmp sha256 (pos 6) ballot state two pair.public_key
        two contest [] refl ballot-valid in
    valid_for_election (from_ciphertext_ballot sha256 (pos 6) ballot state).ballot facts.3 facts.6

spoiled_appended : (append gmp sha256 spoiled_ballot tally).0 ≡ ok true
unfolding append append_valid is_tallied member contains lookup new_tally is_unknown
    from_ciphertext_ballot make_ciphertext_accepted_ballot any
spoiled_appended = rw (accepted-valid BallotBoxState.spoiled, append)

append_twice_example :
    append gmp sha256 cast_ballot (append gmp sha256 spoiled_ballot tally).1
    ≡ (ok false, (append gmp sha256 spoiled_ballot tally).1)
unfolding from_ciphertext_ballot make_ciphertext_accepted_ballot
append_twice_example =
    append_twice gmp sha256 spoiled_ballot cast_ballot tally
      (append gmp sha256 spoiled_ballot tally).1
      (λ i. (spoiled_appended i, (append gmp sha256 spoiled_ballot tally).1)) refl

-- The tally after a batch of the one ballot that is cast.
abbrev batch : CiphertextTally
batch = (batch_append gmp sha256 (cast_ballot ∷ []) tally).1

batch_done : (batch_append gmp sha256 (cast_ballot ∷ []) tally).0 ≡ ok true
unfolding batch_append collect_ballots is_tallied member contains lookup new_tally any collect_valid
batch_done = rw (accepted-valid BallotBoxState.cast, batch_append, collect_ballots)

batch_made : batch_append gmp sha256 (cast_ballot ∷ []) tally ≡ (ok true, batch)
batch_made = λ i. (batch_done i, batch)

batch_append_twice_example : (batch_append gmp sha256 (cast_ballot ∷ []) batch).1.cast ≡ batch.cast
batch_append_twice_example = batch_append_twice gmp sha256 (cast_ballot ∷ []) tally batch batch_made

-- A polynomial of two coefficients at the sequence order 1.
verify-compute_polynomial_coordinate_example :
    (coordinate : ElementModQ) × (compute_polynomial_coordinate gmp
        (pos 1)
        (generate_polynomial gmp sha256 (pos 2) (some two) (λ i. 2) (λ i. 2))
      ≡ ok coordinate)
    × (verify_polynomial_coordinate gmp coordinate
          (pos 1)
          (generate_polynomial gmp sha256
            (pos 2)
            (some two)
            (λ i. 2)
            (λ i. 2)).coefficient_commitments
        ≡ true)
verify-compute_polynomial_coordinate_example =
    verify-compute_polynomial_coordinate gmp sha256 (some two) (λ i. 2) (λ i. 2) gmp_laws 1 2
      one-lt-Q (λ j below. rw (one_pow j) one-lt-P)
