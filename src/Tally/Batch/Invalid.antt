-- ===== src/Tally/Batch/Invalid.antt =====
-- A ballot in the state CAST that is not valid for the election, in batch_append of tally.py: its votes
-- are not counted, and its id is marked as cast.
use electionguard_python.Prelude.{
  ◌≡◌, refl, sym, ap, ◌∙◌, Bool, true, false, ◌&&◌, ◌||◌, List, [], ◌∷◌, ◌++◌, any, inl, inr,
  Bool-cases, arith,
}
use electionguard_python.Prelude.Result.{Result, ok, raise}
use electionguard_python.Prelude.Digits.{Text}
use electionguard_python.Prelude.Texts.{eq_text, eq_text_self, eq_text→eq}
use electionguard_python.External.{Gmp, Sha256}
use electionguard_python.Ballot.Accepted.{BallotBoxState, CiphertextAcceptedBallot}
use electionguard_python.BallotValidator.{ballot_is_valid_for_election}
use electionguard_python.BallotStore.{is_unknown}
use electionguard_python.BallotBox.Accept.{Result-cases}
use electionguard_python.Tally.{CiphertextTally, member, add_id}
use electionguard_python.Tally.Ballots.{with_cast, with_id, add_spoiled, is_tallied, append}
use electionguard_python.Tally.Batch.{
  Collected, collect_valid, collect_ballots, execute_accumulate, mark_if, mark_cast, batch_append,
}
use electionguard_python.Tally.Batch.Twice.{mark_cast-cast}

abbrev is_cast : BallotBoxState → Bool
is_cast BallotBoxState.cast = true
is_cast BallotBoxState.spoiled = false
is_cast BallotBoxState.unknown = false

-- Whether a ballot with the id is in the state CAST.
abbrev pub has_cast : Text → List CiphertextAcceptedBallot → Bool
has_cast id [] = false
has_cast id (b ∷ ballots) =
    (is_cast b.state && eq_text id b.ballot.object_id) || has_cast id ballots

member-add_id :
    (id key : Text) (ids : List Text)
    → member id (add_id key ids) ≡ (eq_text id key || member id ids)
unfolding member add_id any
member-add_id id key ids = ground (arith, eq_text→eq id key)

mark_if-ids :
    (st : BallotBoxState) (id key : Text) (t : CiphertextTally)
    → member id (mark_if st key t).cast_ballot_ids
      ≡ ((is_cast st && eq_text id key) || member id t.cast_ballot_ids)
unfolding mark_if with_id
mark_if-ids BallotBoxState.cast id key t = member-add_id id key t.cast_ballot_ids
mark_if-ids BallotBoxState.spoiled id key t = refl
mark_if-ids BallotBoxState.unknown id key t = refl

mark_cast-ids :
    (ballots : List CiphertextAcceptedBallot) (id : Text) (t : CiphertextTally)
    → member id (mark_cast ballots t).cast_ballot_ids
      ≡ (has_cast id ballots || member id t.cast_ballot_ids)
unfolding mark_cast
mark_cast-ids [] id t = refl
mark_cast-ids (b ∷ ballots) id t = ground (
  arith,
  mark_cast-ids ballots id (mark_if b.state b.ballot.object_id t),
  mark_if-ids b.state id b.ballot.object_id t,
)

-- A tally of the same election with the same ids.
record SameElection (t t' : CiphertextTally) : Type 0 where
  same_metadata : t'.metadata ≡ t.metadata
  same_encryption : t'.encryption ≡ t.encryption
  same_ids : t'.cast_ballot_ids ≡ t.cast_ballot_ids

collect_valid-SameElection :
    (st : BallotBoxState) (b : CiphertextAcceptedBallot) (d : Collected) (t : CiphertextTally)
    → SameElection t (collect_valid st b d t).1
unfolding collect_valid add_spoiled
collect_valid-SameElection BallotBoxState.cast b d t = record {
  same_metadata = refl;
  same_encryption = refl;
  same_ids = refl;
}
collect_valid-SameElection BallotBoxState.spoiled b d t = record {
  same_metadata = refl;
  same_encryption = refl;
  same_ids = refl;
}
collect_valid-SameElection BallotBoxState.unknown b d t = record {
  same_metadata = refl;
  same_encryption = refl;
  same_ids = refl;
}

execute_accumulate-ids :
    (d : Collected) (t : CiphertextTally)
    → (execute_accumulate d t).cast_ballot_ids ≡ t.cast_ballot_ids
unfolding execute_accumulate with_cast
execute_accumulate-ids d t = refl

module _ (gmp : Gmp) (sha256 : Sha256) where
  collect_ballots-ids :
      (ballots : List CiphertextAcceptedBallot) (d : Collected) (t : CiphertextTally)
      → (collect_ballots gmp sha256 ballots d t).1.cast_ballot_ids ≡ t.cast_ballot_ids
  unfolding collect_ballots
  collect_ballots-ids [] d t = refl
  collect_ballots-ids (b ∷ ballots) d t = elim (Bool-cases (is_tallied b t)) [
    | inl there ↦ rw (there, collect_ballots) (collect_ballots-ids ballots d t)
    | inr new ↦
        elim (Result-cases
          (ballot_is_valid_for_election gmp sha256 b.ballot t.metadata t.encryption)) [
            | inl valid ↦
                let next = collect_valid b.state b d t in
                rw (new, valid, collect_ballots)
                  (collect_ballots-ids ballots next.0 next.1
                    ∙ (collect_valid-SameElection b.state b d t).same_ids)
            | inr (inl invalid) ↦
                rw (new, invalid, collect_ballots) (collect_ballots-ids ballots d t)
            | inr (inr (error, raised)) ↦ rw (new, raised, collect_ballots) refl
          ]
  ]

  -- The first loop passes over a ballot that is not valid.
  collect-without :
      (before rest : List CiphertextAcceptedBallot) (b : CiphertextAcceptedBallot) (d : Collected)
      (t : CiphertextTally)
      → ballot_is_valid_for_election gmp sha256 b.ballot t.metadata t.encryption ≡ ok false
      → collect_ballots gmp sha256 (before ++ b ∷ rest) d t
        ≡ collect_ballots gmp sha256 (before ++ rest) d t
  unfolding collect_ballots
  collect-without [] rest b d t h = elim (Bool-cases (is_tallied b t)) [
    | inl there ↦ rw (there, collect_ballots) refl
    | inr new ↦ rw (new, h, collect_ballots) refl
  ]
  collect-without (x ∷ before) rest b d t h = elim (Bool-cases (is_tallied x t)) [
    | inl there ↦ rw (there, collect_ballots) (collect-without before rest b d t h)
    | inr new ↦
        elim (Result-cases
          (ballot_is_valid_for_election gmp sha256 x.ballot t.metadata t.encryption)) [
            | inl valid ↦
                let next = collect_valid x.state x d t in
                let same = collect_valid-SameElection x.state x d t in
                rw (new, valid, collect_ballots)
                  (collect-without before rest b next.0 next.1
                    (rw (same.same_metadata, same.same_encryption) h))
            | inr (inl invalid) ↦
                rw (new, invalid, collect_ballots) (collect-without before rest b d t h)
            | inr (inr (error, raised)) ↦ rw (new, raised, collect_ballots) refl
          ]
  ]

  -- What the tally has after a batch that returns True.
  batch-marked :
      (ballots : List CiphertextAcceptedBallot) (t after : CiphertextTally)
      → batch_append gmp sha256 ballots t ≡ (ok true, after)
      → (d : Collected) × ((collect_ballots gmp sha256 ballots [] t).0 ≡ ok d)
        × (mark_cast ballots (execute_accumulate d (collect_ballots gmp sha256 ballots [] t).1)
            ≡ after)
  unfolding batch_append
  batch-marked ballots t after h = by_result (collect_ballots gmp sha256 ballots [] t).0 refl
    where
      by_result :
          (r : Result Collected)
          → (collect_ballots gmp sha256 ballots [] t).0 ≡ r
          → (d : Collected) × ((collect_ballots gmp sha256 ballots [] t).0 ≡ ok d)
            × (mark_cast ballots (execute_accumulate d (collect_ballots gmp sha256 ballots [] t).1)
                ≡ after)
      by_result (ok d) e = (d, e, ap (λ o. o.1) (rw (e, batch_append) at h))
      by_result (raise error) e =
          absurd (cc (ap (λ (o : Result Bool × CiphertextTally). o.0) (rw (e, batch_append) at h)))

  batch-cast :
      (ballots : List CiphertextAcceptedBallot) (t : CiphertextTally) (d : Collected)
      → (collect_ballots gmp sha256 ballots [] t).0 ≡ ok d
      → (batch_append gmp sha256 ballots t).1.cast
        ≡ (execute_accumulate d (collect_ballots gmp sha256 ballots [] t).1).cast
  unfolding batch_append
  batch-cast ballots t d e =
      rw (e, batch_append)
        (mark_cast-cast ballots (execute_accumulate d (collect_ballots gmp sha256 ballots [] t).1))

  append-known :
      (b : CiphertextAcceptedBallot) (t : CiphertextTally)
      → member b.ballot.object_id t.cast_ballot_ids ≡ true
      → append gmp sha256 b t ≡ (ok false, t)
  unfolding append is_tallied
  append-known b t h = elim (Bool-cases (is_unknown b.state)) [
    | inl unknown ↦ rw (unknown, append) refl
    | inr known ↦ rw (known, h, append) refl
  ]

  has_cast-middle :
      (before rest : List CiphertextAcceptedBallot) (b : CiphertextAcceptedBallot)
      → b.state ≡ BallotBoxState.cast
      → has_cast b.ballot.object_id (before ++ b ∷ rest) ≡ true
  has_cast-middle [] rest b e = rw (ap is_cast e, eq_text_self b.ballot.object_id) refl
  has_cast-middle (x ∷ before) rest b e = rw (has_cast-middle before rest b e) (ground arith)

  -- Where batch_append returns True for a list that has a ballot in the state CAST which is not valid
  -- for the election, the encrypted totals are those that the list without this ballot gives. The ids
  -- that are cast afterwards are those that were cast before and those of the ballots of the list that
  -- are in the state CAST. So append returns False for every later ballot with the id of the ballot
  -- that was not counted, and leaves the tally as it is.
  pub batch_append-invalid :
      (before rest : List CiphertextAcceptedBallot) (b later : CiphertextAcceptedBallot) (id : Text)
      (t after : CiphertextTally)
      → ballot_is_valid_for_election gmp sha256 b.ballot t.metadata t.encryption ≡ ok false
      → b.state ≡ BallotBoxState.cast
      → later.ballot.object_id ≡ b.ballot.object_id
      → batch_append gmp sha256 (before ++ b ∷ rest) t ≡ (ok true, after)
      → (after.cast ≡ (batch_append gmp sha256 (before ++ rest) t).1.cast)
        × (member id after.cast_ballot_ids
            ≡ (has_cast id (before ++ b ∷ rest) || member id t.cast_ballot_ids))
        × (append gmp sha256 later after ≡ (ok false, after))
  unfolding batch_append
  batch_append-invalid before rest b later id t after invalid cast same h =
      let ballots = before ++ b ∷ rest in
      let (d, collected, made) = batch-marked ballots t after h in
      let passed = collect-without before rest b [] t invalid in
      let done = execute_accumulate d (collect_ballots gmp sha256 ballots [] t).1 in
      let ids : (key : Text)
          → member key after.cast_ballot_ids
            ≡ (has_cast key ballots || member key t.cast_ballot_ids) =
        λ key.
          ap (λ (x : CiphertextTally). member key x.cast_ballot_ids) (sym made)
          ∙ mark_cast-ids ballots key done
          ∙ ap (λ x. has_cast key ballots || member key x)
              (execute_accumulate-ids d (collect_ballots gmp sha256 ballots [] t).1
                ∙ collect_ballots-ids ballots [] t) in
      (
        ap (λ (x : CiphertextTally). x.cast) (sym made)
            ∙ mark_cast-cast ballots done
            ∙ ap (λ x. (execute_accumulate d x.1).cast) passed
            ∙ sym (batch-cast (before ++ rest) t d (ap (λ x. x.0) (sym passed) ∙ collected)),
        ids id,
        append-known later after (
            ap (λ key. member key after.cast_ballot_ids) same
            ∙ ids b.ballot.object_id
            ∙ ap (λ x. x || member b.ballot.object_id t.cast_ballot_ids)
                (has_cast-middle before rest b cast)),
      )
