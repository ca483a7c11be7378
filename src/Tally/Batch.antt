-- ===== src/Tally/Batch.antt =====
-- tally.py: batch_append and tally_ballots. The ballots are a list, so that both loops see them all.
pub mod Marked
pub mod Twice
pub mod Invalid
use electionguard_python.Prelude.{
  ◌≡◌, refl, ap, ◌∙◌, sym, Bool, true, false, ◌&&◌, not, Option, none, some, List, [], ◌∷◌, ◌++◌,
  map, any, if◌then◌else◌, inl, inr, Bool-cases, arith,
}
use electionguard_python.Prelude.Result.{Result, ok, raise, ◌>>=◌}
use electionguard_python.Prelude.Digits.{Text}
use electionguard_python.Prelude.Texts.{eq_text, eq_text_self}
use electionguard_python.Prelude.Dict.{Dict, lookup, put, values}
use electionguard_python.External.{Gmp, Sha256}
use electionguard_python.Elgamal.{ElGamalCiphertext, elgamal_add}
use electionguard_python.Ballot.Selection.{CiphertextBallotSelection}
use electionguard_python.Ballot.Contest.{CiphertextBallotContest}
use electionguard_python.Ballot.Accepted.{BallotBoxState, CiphertextAcceptedBallot}
use electionguard_python.BallotValidator.{ballot_is_valid_for_election}
use electionguard_python.BallotStore.{BallotStore, all_ballots}
use electionguard_python.Election.Internal.{InternalElectionDescription, CiphertextElectionContext}
use electionguard_python.Prelude.Digits.{codes}
use electionguard_python.Tally.{
  CiphertextTally, CiphertextTallyContest, CiphertextTallySelection, member, add_id, accumulated,
  with_ciphertext,
}
use electionguard_python.Tally.Ballots.{with_cast, with_id, add_spoiled, is_tallied, new_tally}

-- cast_ballot_selections: by the selection's id, and then by the ballot's.
abbrev pub Collected : Type 0
Collected = Dict (Dict ElGamalCiphertext)

abbrev or_empty : Option (Dict ElGamalCiphertext) → Dict ElGamalCiphertext
or_empty none = []
or_empty (some d) = d

unfoldable pub collect_selections : Text → List CiphertextBallotSelection → Collected → Collected
collect_selections ballot_id [] d = d
collect_selections ballot_id (s ∷ selections) d =
    collect_selections ballot_id selections
      (put s.object_id (put ballot_id s.ciphertext (or_empty (lookup s.object_id d))) d)

unfoldable pub collect_contests : Text → List CiphertextBallotContest → Collected → Collected
unfolding collect_selections
collect_contests ballot_id [] d = d
collect_contests ballot_id (c ∷ contests) d =
    collect_contests ballot_id contests (collect_selections ballot_id c.ballot_selections d)

-- What the first loop does with a ballot that is new and valid.
unfoldable pub collect_valid :
    BallotBoxState
    → CiphertextAcceptedBallot
    → Collected
    → CiphertextTally
    → Collected × CiphertextTally
unfolding collect_contests
collect_valid BallotBoxState.cast b d t =
    (collect_contests b.ballot.object_id b.ballot.contests d, t)
collect_valid BallotBoxState.spoiled b d t = (d, add_spoiled b t)
collect_valid BallotBoxState.unknown b d t = (d, t)

module _ (gmp : Gmp) (sha256 : Sha256) where
  -- The first loop.
  unfoldable pub collect_ballots :
      List CiphertextAcceptedBallot
      → Collected
      → CiphertextTally
      → Result Collected × CiphertextTally
  collect_ballots [] d t = (Result.ok d, t)
  collect_ballots (b ∷ ballots) d t = elim (is_tallied b t) [
    | true ↦ collect_ballots ballots d t
    | false ↦ elim (ballot_is_valid_for_election gmp sha256 b.ballot t.metadata t.encryption) [
      | raise e ↦ (Result.raise e, t)
      | ok false ↦ collect_ballots ballots d t
      | ok true ↦ let (d', t') = collect_valid b.state b d t in collect_ballots ballots d' t'
    ]
  ]

-- _accumulate over all the selections.
unfoldable pub sums : Collected → Result (Dict ElGamalCiphertext)
sums [] = ok []
sums ((id, ciphertexts) ∷ rest) = do
  c ← elgamal_add (values ciphertexts)
  results ← sums rest
  ok ((id, c) ∷ results)

-- The scheduler returns no results where a task raises.
unfoldable pub scheduled : Result (Dict ElGamalCiphertext) → Dict ElGamalCiphertext
scheduled (ok results) = results
scheduled (raise e) = []

-- A dict from pairs.
unfoldable pub from_pairs :
    List (Text × ElGamalCiphertext) → Dict ElGamalCiphertext → Dict ElGamalCiphertext
from_pairs [] d = d
from_pairs ((k, v) ∷ pairs) d = from_pairs pairs (put k v d)

unfoldable pub accumulate_results :
    Dict ElGamalCiphertext → Dict CiphertextTallySelection → Dict CiphertextTallySelection
accumulate_results results [] = []
accumulate_results results ((id, s) ∷ selections) =
    let rest = accumulate_results results selections in
    elim (lookup id results) [
      | none ↦ (id, s) ∷ rest
      | some c ↦ (id, with_ciphertext (accumulated c s) s) ∷ rest
    ]

unfoldable pub accumulate_all :
    Dict ElGamalCiphertext → Dict CiphertextTallyContest → Dict CiphertextTallyContest
unfolding accumulate_results
accumulate_all results [] = []
accumulate_all results ((id, c) ∷ contests) =
    (
      id,
      record {
        object_id = c.object_id;
        description_hash = c.description_hash;
        tally_selections = accumulate_results results c.tally_selections;
      },
    )
    ∷ accumulate_all results contests

-- _execute_accumulate, which returns True.
unfoldable pub execute_accumulate : Collected → CiphertextTally → CiphertextTally
unfolding accumulate_all from_pairs scheduled sums
execute_accumulate d t = with_cast (accumulate_all (from_pairs (scheduled (sums d)) []) t.cast) t

-- The second loop.
unfoldable pub mark_if : BallotBoxState → Text → CiphertextTally → CiphertextTally
unfolding with_id
mark_if BallotBoxState.cast id t = with_id id t
mark_if BallotBoxState.spoiled id t = t
mark_if BallotBoxState.unknown id t = t

unfoldable pub mark_cast : List CiphertextAcceptedBallot → CiphertextTally → CiphertextTally
unfolding mark_if
mark_cast [] t = t
mark_cast (b ∷ ballots) t = mark_cast ballots (mark_if b.state b.ballot.object_id t)

module _ (gmp : Gmp) (sha256 : Sha256) where
  unfoldable pub batch_append :
      List CiphertextAcceptedBallot → CiphertextTally → Result Bool × CiphertextTally
  unfolding execute_accumulate mark_cast
  batch_append ballots t =
      let (collected, after) = collect_ballots gmp sha256 ballots [] t in
      elim collected [
        | raise e ↦ (Result.raise e, after)
        | ok d ↦ (Result.ok true, mark_cast ballots (execute_accumulate d after))
      ]

  -- A tally of the ballots that a store holds, where none of its entries is None.
  unfoldable pub tally_ballots :
      BallotStore
      → InternalElectionDescription
      → CiphertextElectionContext
      → Result (Option CiphertextTally)
  unfolding batch_append
  tally_ballots store metadata context =
      let (result, after) =
        batch_append (all_ballots store)
          (new_tally sha256 (codes "election-results") metadata context) in
      elim result [ raise e ↦ raise e | ok true ↦ ok (some after) | ok false ↦ ok none ]
