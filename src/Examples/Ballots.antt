-- ===== src/Examples/Ballots.antt =====
-- Examples for ballots, the ballot box and polynomials, with the key pair of the secret key 2.
use electionguard_python.Prelude.{◌≡◌, refl, true, false, none, some, [], ◌∷◌, arith}
use electionguard_python.Prelude.Int.{pos}
use electionguard_python.Prelude.Result.{ok}
use electionguard_python.Prelude.Digits.{codes}
use electionguard_python.Prelude.Texts.{eq_text}
use electionguard_python.Group.{ElementModQ, mk_q}
use electionguard_python.Group.Elements.{eq_q_self}
use electionguard_python.Elgamal.{elgamal_add}
use electionguard_python.Elgamal.Homomorphic.{total}
use electionguard_python.ChaumPedersen.{
  DisjunctiveChaumPedersenProof, ConstantChaumPedersenProof, disjunctive_is_valid,
  constant_is_valid,
}
use electionguard_python.ChaumPedersen.Constant.{make_constant_chaum_pedersen-is_valid}
use electionguard_python.ChaumPedersen.Disjunctive.{make_disjunctive_chaum_pedersen-is_valid}
use electionguard_python.Election.Internal.{
  InternalElectionDescription, CiphertextElectionContext, get_contests_for, get_ballot_style,
  find_style,
}
use electionguard_python.Ballot.Selection.{
  CiphertextBallotSelection, make_ciphertext_ballot_selection,
}
use electionguard_python.Ballot.Selection
use electionguard_python.Ballot.Contest.{
  CiphertextBallotContest, make_ciphertext_ballot_contest, accumulate, elgamal_accumulate,
}
use electionguard_python.Ballot.Contest
use electionguard_python.Ballot.Contest.Complete.{
  make_ciphertext_ballot_contest-is_valid_encryption,
}
use electionguard_python.Ballot.Ciphertext.{
  CiphertextBallot, make_ciphertext_ballot, is_valid_encryption,
}
use electionguard_python.Ballot.Ciphertext.Complete.{
  Contests, make_ciphertext_ballot-is_valid_encryption,
}
use electionguard_python.Ballot.Accepted.{BallotBoxState, from_ciphertext_ballot}
use electionguard_python.Ballot.Accepted.Laws.{NoNonces, from_ciphertext_ballot-is_valid_encryption}
use electionguard_python.BallotValidator.{
  contests_are_valid, ballot_is_valid_for_style, ballot_is_valid_for_election,
}
use electionguard_python.Examples.StandIns.{gmp, gmp_laws, sha256}
use electionguard_python.Examples.Crypto.{
  pair, vote, one-encrypted, key-is_valid_residue, two-in_bounds,
}

abbrev pub two : ElementModQ
two = mk_q 2

pub disjunctive :
    (proof : DisjunctiveChaumPedersenProof) × (disjunctive_is_valid gmp sha256 proof
        (vote 1)
        pair.public_key
        two
      ≡ true)
disjunctive =
    let (proof, _, valid) =
      make_disjunctive_chaum_pedersen-is_valid gmp_laws sha256 1 two two two pair.public_key
        (omega arith) two-in_bounds key-is_valid_residue one-encrypted in
    (proof, valid)

pub constant :
    (proof : ConstantChaumPedersenProof) × (constant_is_valid gmp sha256 proof
        (vote 1)
        pair.public_key
        two
      ≡ true)
constant =
    let (proof, _, valid) =
      make_constant_chaum_pedersen-is_valid gmp_laws sha256 1 two two two pair.public_key
        (omega arith) two-in_bounds key-is_valid_residue one-encrypted in
    (proof, valid)

-- A vote for the selection "a", as the only one of the contest "c".
abbrev pub selection : CiphertextBallotSelection
selection = record {
  object_id = codes "a";
  description_hash = two;
  ciphertext = vote 1;
  crypto_hash = Selection.crypto_hash_of sha256 (codes "a") two (vote 1);
  is_placeholder_selection = false;
  nonce = some two;
  proof = some disjunctive.0;
  extended_data = none;
}

abbrev pub contest : CiphertextBallotContest
contest = record {
  object_id = codes "c";
  description_hash = two;
  ballot_selections = selection ∷ [];
  crypto_hash = Contest.crypto_hash_of sha256 (codes "c") (selection ∷ []) two;
  nonce = some two;
  proof = some constant.0;
}

selection-valid : Selection.is_valid_encryption gmp sha256 selection two pair.public_key two ≡ true
unfolding Selection.is_valid_encryption Selection.crypto_hash_with
selection-valid = simp (eq_q_self, disjunctive.1)

contest-valid : Contest.is_valid_encryption gmp sha256 contest two pair.public_key two ≡ ok true
unfolding Contest.is_valid_encryption Contest.crypto_hash_with elgamal_accumulate accumulate
    elgamal_add
contest-valid = simp (eq_q_self, constant.1)

abbrev all_valid : Contests gmp sha256 pair.public_key two (contest ∷ [])
all_valid = ((selection-valid, tt), contest-valid, tt)

make_ciphertext_ballot_contest-is_valid_encryption_example :
    (made : CiphertextBallotContest) × (make_ciphertext_ballot_contest gmp sha256
        (codes "c")
        two
        (selection ∷ [])
        pair.public_key
        two
        two
        (pos 1)
        none
        none
        none
      ≡ ok made)
    × (Contest.is_valid_encryption gmp sha256 made two pair.public_key two ≡ ok true)
unfolding total
make_ciphertext_ballot_contest-is_valid_encryption_example =
    make_ciphertext_ballot_contest-is_valid_encryption gmp_laws sha256 (codes "c") two two two
      pair.public_key (1, two) [] (selection ∷ []) none key-is_valid_residue
      (one-encrypted, refl, two-in_bounds, tt) (omega arith)

abbrev pub ballot : CiphertextBallot
ballot =
    make_ciphertext_ballot sha256 (pos 5) (codes "b") (codes "style") two none (contest ∷ [])
      (some two) none none

pub ballot-valid : is_valid_encryption gmp sha256 ballot two pair.public_key two ≡ ok true
ballot-valid =
    make_ciphertext_ballot-is_valid_encryption gmp sha256 pair.public_key two (pos 5) (codes "b")
      (codes "style") two none contest [] (some two) none none all_valid

from_ciphertext_ballot-is_valid_encryption_example :
    let accepted = (from_ciphertext_ballot sha256 (pos 6) ballot BallotBoxState.cast).ballot in
    (accepted.nonce ≡ none)
    × NoNonces accepted.contests
    × (accepted.object_id ≡ ballot.object_id)
    × (accepted.ballot_style ≡ ballot.ballot_style)
    × (accepted.description_hash ≡ ballot.description_hash)
    × (accepted.timestamp ≡ ballot.timestamp)
    × (is_valid_encryption gmp sha256 accepted two pair.public_key two ≡ ok true)
unfolding make_ciphertext_ballot
from_ciphertext_ballot-is_valid_encryption_example =
    from_ciphertext_ballot-is_valid_encryption gmp sha256 (pos 6) ballot BallotBoxState.cast two
      pair.public_key two contest [] refl ballot-valid

-- An election whose only ballot style has no geopolitical units, so that it asks for no contest.
abbrev pub metadata : InternalElectionDescription
metadata = record {
  contests = [];
  ballot_styles =
      record {
        object_id = codes "style";
        geopolitical_unit_ids = none;
        party_ids = none;
        image_uri = none;
      }
      ∷ [];
  description_hash = two;
}

abbrev pub context : CiphertextElectionContext
context = record {
  number_of_guardians = pos 1;
  quorum = pos 1;
  elgamal_public_key = pair.public_key;
  description_hash = two;
  crypto_base_hash = two;
  crypto_extended_base_hash = two;
}

fits :
    (b : CiphertextBallot)
    → b.ballot_style ≡ codes "style"
    → ballot_is_valid_for_style sha256 b metadata ≡ ok true
unfolding ballot_is_valid_for_style get_contests_for get_ballot_style find_style eq_text
    contests_are_valid
fits b h = rw h

pub valid_for_election :
    (b : CiphertextBallot)
    → b.ballot_style ≡ codes "style"
    → is_valid_encryption gmp sha256 b two pair.public_key two ≡ ok true
    → ballot_is_valid_for_election gmp sha256 b metadata context ≡ ok true
unfolding ballot_is_valid_for_election
valid_for_election b h valid = rw (fits b h, valid)

pub ballot-valid_for_election :
    ballot_is_valid_for_election gmp sha256 ballot metadata context ≡ ok true
unfolding make_ciphertext_ballot
ballot-valid_for_election = valid_for_election ballot refl ballot-valid
