-- ===== src/Examples/Box.antt =====
-- Examples for the ballot box and the tally: one ballot that is cast, and spoiled.
use electionguard_python.Prelude.{◌≡◌, ◌≢◌, refl, ap, ◌∙◌, some, Option, if◌then◌else◌}
use electionguard_python.Prelude.Int.{pos}
use electionguard_python.Prelude.Result.{Result, ok}
use electionguard_python.Prelude.Texts.{eq_text_self}
use electionguard_python.Prelude.Dict.{lookup}
use electionguard_python.Ballot.Accepted.{
  BallotBoxState, CiphertextAcceptedBallot, from_ciphertext_ballot,
}
use electionguard_python.BallotStore.{BallotStore, new, get, exists, is_unknown}
use electionguard_python.BallotStore.Laws.{stored, get-stored}
use electionguard_python.BallotBox.{accept_ballot, cast, spoil}
use electionguard_python.BallotBox.Accept.{
  Accepts, accept-fresh, accept_ballot-accepted, accept_ballot_twice,
}
use electionguard_python.BallotBox.Reachable.{
  start, and_cast, and_spoil, box_of, IsEntry, Steps-IsEntry, Steps-keep,
}
use electionguard_python.Examples.StandIns.{gmp, sha256}
use electionguard_python.Examples.Ballots.{ballot, metadata, context, ballot-valid_for_election}

abbrev accepted : CiphertextAcceptedBallot
accepted = from_ciphertext_ballot sha256 (pos 6) ballot BallotBoxState.cast

abbrev after : BallotStore
after = stored ballot.object_id accepted new

is_cast :
    ◌≡◌ {A = Result (Option CiphertextAcceptedBallot) × BallotStore}
      (accept_ballot gmp sha256 (pos 6) ballot BallotBoxState.cast metadata context new)
      (ok (some accepted), after)
unfolding is_unknown exists get lookup
is_cast =
    accept-fresh gmp sha256 (pos 6) ballot BallotBoxState.cast metadata context new
      ballot-valid_for_election refl refl

accept_ballot-accepted_example :
    Accepts gmp sha256 (pos 6) ballot BallotBoxState.cast metadata context new accepted after
unfolding is_unknown
accept_ballot-accepted_example =
    accept_ballot-accepted gmp sha256 (pos 6) ballot BallotBoxState.cast metadata context new
      accepted after refl is_cast

accept_ballot_twice_example :
    ((a' : CiphertextAcceptedBallot)
      → (accept_ballot gmp sha256 (pos 7) ballot BallotBoxState.spoiled metadata context after).0
        ≢ ok (some a'))
    × ((accept_ballot gmp sha256 (pos 7) ballot BallotBoxState.spoiled metadata context after).1
        ≡ after)
unfolding is_unknown
accept_ballot_twice_example =
    accept_ballot_twice gmp sha256 (pos 6) (pos 7) ballot ballot BallotBoxState.cast
      BallotBoxState.spoiled metadata metadata context context new after accepted refl is_cast refl

abbrev box_after : BallotStore
box_after = (cast gmp sha256 (pos 6) ballot (box_of gmp sha256 metadata context new)).1.store

-- The store after the ballot is cast, by its id.
found : get ballot.object_id box_after ≡ some accepted
unfolding cast
found =
    ap (λ o. get ballot.object_id o.1) is_cast
    ∙ get-stored ballot.object_id ballot.object_id accepted new
    ∙ ap (λ t. if t then some accepted else get ballot.object_id new)
        (eq_text_self ballot.object_id)

Steps-IsEntry_example : IsEntry gmp sha256 metadata context ballot.object_id accepted
Steps-IsEntry_example =
    Steps-IsEntry gmp sha256 metadata context box_after ballot.object_id accepted
      (and_cast start (pos 6) ballot) found

Steps-keep_example :
    get ballot.object_id
      (spoil gmp sha256 (pos 7) ballot (box_of gmp sha256 metadata context box_after)).1.store
    ≡ some accepted
Steps-keep_example =
    Steps-keep gmp sha256 metadata context box_after
      (spoil gmp sha256 (pos 7) ballot (box_of gmp sha256 metadata context box_after)).1.store
      ballot.object_id accepted (and_cast start (pos 6) ballot) (and_spoil start (pos 7) ballot)
      found
