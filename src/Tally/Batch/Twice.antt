-- ===== src/Tally/Batch/Twice.antt =====
-- A second batch_append (tally.py) of the same ballots.
use electionguard_python.Prelude.{
  ◌≡◌, ◌⊎◌, refl, ap, ◌∙◌, subst, Bool, true, false, List, [], ◌∷◌, inl, inr, Bool-cases,
}
use electionguard_python.Prelude.Result.{Result, ok, raise, Error}
use electionguard_python.Prelude.Digits.{Text}
use electionguard_python.Prelude.Dict.{Dict, lookup}
use electionguard_python.External.{Gmp, Sha256}
use electionguard_python.Ballot.Accepted.{BallotBoxState, CiphertextAcceptedBallot}
use electionguard_python.BallotValidator.{ballot_is_valid_for_election}
use electionguard_python.BallotBox.Accept.{Result-cases}
use electionguard_python.Tally.{CiphertextTally, CiphertextTallyContest, CiphertextTallySelection}
use electionguard_python.Tally.Ballots.{with_cast, with_id, add_spoiled, is_tallied}
use electionguard_python.Tally.Batch.{
  Collected, collect_valid, collect_ballots, sums, scheduled, from_pairs, accumulate_results,
  accumulate_all, execute_accumulate, mark_if, mark_cast, batch_append,
}
use electionguard_python.Tally.Batch.Marked.{MarkedIn, Marked, mark_cast-Marked, not_marked}

-- The first loop collected nothing, and the contests of the tally are as they were.
record Quiet (r : Result Collected × CiphertextTally) (t : CiphertextTally) : Type 0 where
  nothing : (r.0 ≡ ok []) ⊎ ((e : Error) × (r.0 ≡ raise e))
  same_cast : r.1.cast ≡ t.cast

-- Without results, nothing is accumulated.
accumulate_results-empty : (d : Dict CiphertextTallySelection) → accumulate_results [] d ≡ d
unfolding accumulate_results lookup
accumulate_results-empty [] = refl
accumulate_results-empty ((id, s) ∷ d) = ap (λ r. (id, s) ∷ r) (accumulate_results-empty d)

accumulate_all-empty : (d : Dict CiphertextTallyContest) → accumulate_all [] d ≡ d
unfolding accumulate_all
accumulate_all-empty [] = refl
accumulate_all-empty ((id, c) ∷ d) = λ i.
    (
      id,
      record {
        object_id = c.object_id;
        description_hash = c.description_hash;
        tally_selections = accumulate_results-empty c.tally_selections i;
      },
    )
    ∷ accumulate_all-empty d i

execute_accumulate-empty : (t : CiphertextTally) → (execute_accumulate [] t).cast ≡ t.cast
unfolding execute_accumulate sums scheduled from_pairs with_cast
execute_accumulate-empty t = accumulate_all-empty t.cast

mark_if-cast :
    (st : BallotBoxState) (id : Text) (t : CiphertextTally) → (mark_if st id t).cast ≡ t.cast
unfolding mark_if with_id
mark_if-cast BallotBoxState.cast id t = refl
mark_if-cast BallotBoxState.spoiled id t = refl
mark_if-cast BallotBoxState.unknown id t = refl

pub mark_cast-cast :
    (bs : List CiphertextAcceptedBallot) (t : CiphertextTally) → (mark_cast bs t).cast ≡ t.cast
unfolding mark_cast
mark_cast-cast [] t = refl
mark_cast-cast (b ∷ bs) t =
    mark_cast-cast bs (mark_if b.state b.ballot.object_id t)
    ∙ mark_if-cast b.state b.ballot.object_id t

module _ (gmp : Gmp) (sha256 : Sha256) where
  Quiet-cast :
      (bs : List CiphertextAcceptedBallot) (t : CiphertextTally)
      → Quiet (collect_ballots gmp sha256 bs [] t) t
      → (batch_append gmp sha256 bs t).1.cast ≡ t.cast
  unfolding batch_append
  Quiet-cast bs t q = elim q.nothing [
    | inl e ↦
        rw (e, batch_append)
          (mark_cast-cast bs (execute_accumulate [] (collect_ballots gmp sha256 bs [] t).1)
            ∙ execute_accumulate-empty (collect_ballots gmp sha256 bs [] t).1
            ∙ q.same_cast)
    | inr (error, e) ↦ rw (e, batch_append) q.same_cast
  ]

  batch_append-Marked :
      (bs : List CiphertextAcceptedBallot) (t after : CiphertextTally)
      → batch_append gmp sha256 bs t ≡ (ok true, after)
      → Marked bs after.cast_ballot_ids
  unfolding batch_append
  batch_append-Marked bs t after h = by_result (collect_ballots gmp sha256 bs [] t).0 refl
    where
      by_result :
          (r : Result Collected)
          → (collect_ballots gmp sha256 bs [] t).0 ≡ r
          → Marked bs after.cast_ballot_ids
      by_result (ok d) e =
          let done = execute_accumulate d (collect_ballots gmp sha256 bs [] t).1 in
          let made : ◌≡◌ {A = Result Bool × CiphertextTally} (ok true, mark_cast bs done)
              (ok true, after) =
            rw (e, batch_append) at h in
          subst (λ (x : CiphertextTally). Marked bs x.cast_ballot_ids) (ap (λ o. o.1) made)
            (mark_cast-Marked bs done)
      by_result (raise error) e =
          let made : ◌≡◌ {A = Result Bool} (raise error) (ok true) =
            ap (λ o. o.0) (rw (e, batch_append) at h) in
          absurd (cc made)

  -- A valid ballot that is not tallied is not in the state CAST, if those in that state are marked.
  by_state :
      (b : CiphertextAcceptedBallot) (bs : List CiphertextAcceptedBallot) (ids : List Text)
      (t : CiphertextTally)
      → t.cast_ballot_ids ≡ ids
      → ((t' : CiphertextTally)
          → t'.cast_ballot_ids ≡ ids
          → Quiet (collect_ballots gmp sha256 bs [] t') t')
      → (st : BallotBoxState) → MarkedIn st b.ballot.object_id ids
      → is_tallied b t ≡ false
      → Quiet
          (collect_ballots gmp sha256 bs (collect_valid st b [] t).0 (collect_valid st b [] t).1)
          t
  unfolding collect_valid add_spoiled
  by_state b bs ids t e rest BallotBoxState.cast marked new =
      absurd (not_marked b t ids e marked new)
  by_state b bs ids t e rest BallotBoxState.spoiled marked new =
      let q = rest (add_spoiled b t) e in record { nothing = q.nothing; same_cast = q.same_cast }
  by_state b bs ids t e rest BallotBoxState.unknown marked new = rest t e

  collect-Quiet :
      (bs : List CiphertextAcceptedBallot) (ids : List Text) (t : CiphertextTally)
      → t.cast_ballot_ids ≡ ids
      → Marked bs ids
      → Quiet (collect_ballots gmp sha256 bs [] t) t
  unfolding collect_ballots
  collect-Quiet [] ids t e m = record { nothing = inl refl; same_cast = refl }
  collect-Quiet (b ∷ bs) ids t e m = elim (Bool-cases (is_tallied b t)) [
    | inl there ↦ rw (there, collect_ballots) (collect-Quiet bs ids t e m.1)
    | inr new ↦
        elim (Result-cases
          (ballot_is_valid_for_election gmp sha256 b.ballot t.metadata t.encryption)) [
            | inl valid ↦
                rw (new, valid, collect_ballots)
                  (by_state b bs ids t e (λ t' e'. collect-Quiet bs ids t' e' m.1) b.state m.0 new)
            | inr (inl invalid) ↦ rw (new, invalid, collect_ballots) (collect-Quiet bs ids t e m.1)
            | inr (inr (error, raised)) ↦
                rw (new, raised, collect_ballots)
                  (record { nothing = inr (error, refl); same_cast = refl })
          ]
  ]

  -- A second batch_append of a list of ballots, whatever it returns, leaves every contest of the tally
  -- as the first has left it, where the first returned True.
  pub batch_append_twice :
      (ballots : List CiphertextAcceptedBallot) (t after : CiphertextTally)
      → batch_append gmp sha256 ballots t ≡ (ok true, after)
      → (batch_append gmp sha256 ballots after).1.cast ≡ after.cast
  batch_append_twice ballots t after h = Quiet-cast ballots after (
      collect-Quiet ballots after.cast_ballot_ids after refl
        (batch_append-Marked ballots t after h))
