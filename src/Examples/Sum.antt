-- ===== src/Examples/Sum.antt =====
-- An example for the tally of one contest: a ballot's selection is added to the total of its id.
use electionguard_python.Prelude.{[], ◌∷◌}
use electionguard_python.Prelude.Digits.{codes}
use electionguard_python.Tally.{
  CiphertextTallySelection, CiphertextTallyContest, accumulate_contest,
}
use electionguard_python.Examples.Crypto.{vote}
use electionguard_python.Examples.Ballots.{two, selection}

abbrev total_of : CiphertextTallySelection
total_of = record { object_id = codes "a"; description_hash = two; ciphertext = vote 0 }

abbrev contest : CiphertextTallyContest
contest = record {
  object_id = codes "c";
  description_hash = two;
  tally_selections = (codes "a", total_of) ∷ [];
}

abbrev after : CiphertextTallyContest
after = (accumulate_contest (selection ∷ []) contest).1
