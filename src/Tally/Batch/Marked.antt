-- ===== src/Tally/Batch/Marked.antt =====
-- The ids that the second loop of batch_append of tally.py marks as cast.
use electionguard_python.Prelude.{◌≡◌, ap, ◌∙◌, true, false, List, [], ◌∷◌, any, arith}
use electionguard_python.Prelude.Digits.{Text}
use electionguard_python.Prelude.Texts.{eq_text_self}
use electionguard_python.Ballot.Accepted.{BallotBoxState, CiphertextAcceptedBallot}
use electionguard_python.Tally.{CiphertextTally, member, add_id}
use electionguard_python.Tally.Ballots.{with_id, is_tallied}
use electionguard_python.Tally.Batch.{mark_if, mark_cast}

-- The ballots of a list that are in the state CAST are among the ids.
abbrev pub MarkedIn : BallotBoxState → Text → List Text → Type 0
MarkedIn BallotBoxState.cast id ids = member id ids ≡ true
MarkedIn BallotBoxState.spoiled id ids = Unit
MarkedIn BallotBoxState.unknown id ids = Unit

abbrev pub Marked : List CiphertextAcceptedBallot → List Text → Type 0
Marked [] ids = Unit
Marked (b ∷ bs) ids = MarkedIn b.state b.ballot.object_id ids × Marked bs ids

member-add_id :
    (id key : Text) (ids : List Text) → member id ids ≡ true → member id (add_id key ids) ≡ true
unfolding member add_id any
member-add_id id key ids h = ground arith

add_id_self : (id : Text) (ids : List Text) → member id (add_id id ids) ≡ true
unfolding member add_id any
add_id_self id ids = ground (arith, eq_text_self id)

member-mark_if :
    (st : BallotBoxState) (id key : Text) (t : CiphertextTally)
    → member id t.cast_ballot_ids ≡ true
    → member id (mark_if st key t).cast_ballot_ids ≡ true
unfolding mark_if with_id
member-mark_if BallotBoxState.cast id key t h = member-add_id id key t.cast_ballot_ids h
member-mark_if BallotBoxState.spoiled id key t h = h
member-mark_if BallotBoxState.unknown id key t h = h

member-mark_cast :
    (bs : List CiphertextAcceptedBallot) (id : Text) (t : CiphertextTally)
    → member id t.cast_ballot_ids ≡ true
    → member id (mark_cast bs t).cast_ballot_ids ≡ true
unfolding mark_cast
member-mark_cast [] id t h = h
member-mark_cast (b ∷ bs) id t h =
    member-mark_cast bs id (mark_if b.state b.ballot.object_id t)
      (member-mark_if b.state id b.ballot.object_id t h)

mark_if-MarkedIn :
    (st : BallotBoxState) (id : Text) (bs : List CiphertextAcceptedBallot) (t : CiphertextTally)
    → MarkedIn st id (mark_cast bs (mark_if st id t)).cast_ballot_ids
unfolding mark_if with_id
mark_if-MarkedIn BallotBoxState.cast id bs t =
    member-mark_cast bs id (with_id id t) (unfold with_id in add_id_self id t.cast_ballot_ids)
mark_if-MarkedIn BallotBoxState.spoiled id bs t = tt
mark_if-MarkedIn BallotBoxState.unknown id bs t = tt

pub mark_cast-Marked :
    (bs : List CiphertextAcceptedBallot) (t : CiphertextTally)
    → Marked bs (mark_cast bs t).cast_ballot_ids
unfolding mark_cast
mark_cast-Marked [] t = tt
mark_cast-Marked (b ∷ bs) t = (
  mark_if-MarkedIn b.state b.ballot.object_id bs t,
  mark_cast-Marked bs (mark_if b.state b.ballot.object_id t),
)

pub not_marked :
    (b : CiphertextAcceptedBallot) (t : CiphertextTally) (ids : List Text)
    → t.cast_ballot_ids ≡ ids
    → member b.ballot.object_id ids ≡ true
    → is_tallied b t ≡ false
    → ⊥
unfolding is_tallied
not_marked b t ids e h new =
    let there : member b.ballot.object_id t.cast_ballot_ids ≡ true =
      ap (member b.ballot.object_id) e ∙ h in
    ground arith
