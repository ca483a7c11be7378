-- ===== src/Examples/Device.antt =====
-- Examples for the encryption of a ballot of one contest, and for the chain of a device's ballots.
use mathlib.Core.Option.{some-injective}
use electionguard_python.Prelude.{
  ◌≡◌, refl, subst, true, none, some, List, [], ◌∷◌, map, any, arith,
}
use electionguard_python.Prelude.Int.{pos}
use electionguard_python.Prelude.Result.{ok}
use electionguard_python.Prelude.Digits.{codes}
use electionguard_python.Prelude.Texts.{eq_text}
use electionguard_python.Group.{ElementModQ, mk_q}
use electionguard_python.Election.Internal.{
  InternalElectionDescription, CiphertextElectionContext, get_contests_for, get_ballot_style,
  find_style, contests_in,
}
use electionguard_python.Ballot.Plaintext.{
  PlaintextBallot, PlaintextBallotContest, is_valid_contest,
}
use electionguard_python.Ballot.Ciphertext.{CiphertextBallot, is_valid_encryption}
use electionguard_python.Encrypt.Ballots.{contest_with, encrypt_ballot, EncryptionMediator}
use electionguard_python.Encrypt.Complete.BallotContests.{IsEncryptable}
use electionguard_python.Encrypt.Complete.Ballot.{encrypt_ballot-is_valid_encryption}
use electionguard_python.Encrypt.Chain.{Call, encrypt_all, IsChain, encrypt_all-IsChain}
use electionguard_python.Examples.StandIns.{gmp, gmp_laws}
use electionguard_python.Examples.Crypto.{pair, key-is_valid_residue}
use electionguard_python.Examples.Encryption.{
  sha256, described, contest, contest-valid, described-valid, item-one, has_nonce, alice, bob,
  nobody,
}

abbrev metadata : InternalElectionDescription
metadata = record {
  contests = described ∷ [];
  ballot_styles =
      record {
        object_id = codes "style";
        geopolitical_unit_ids = some (codes "town" ∷ []);
        party_ids = none;
        image_uri = none;
      }
      ∷ [];
  description_hash = mk_q 5;
}

abbrev context : CiphertextElectionContext
context = record {
  number_of_guardians = pos 1;
  quorum = pos 1;
  elgamal_public_key = pair.public_key;
  description_hash = mk_q 5;
  crypto_base_hash = mk_q 6;
  crypto_extended_base_hash = mk_q 7;
}

abbrev ballot : PlaintextBallot
ballot = record {
  object_id = codes "ballot";
  ballot_style = codes "style";
  contests = contest ∷ [];
}

styled : get_contests_for metadata ballot.ballot_style ≡ ok (described ∷ [])
unfolding get_contests_for get_ballot_style find_style contests_in eq_text any
styled = refl

fits :
    (voted : PlaintextBallotContest)
    → contest_with (codes "mayor") (contest ∷ []) ≡ some voted
    → is_valid_contest voted (codes "mayor") 2 (pos 1) (some (pos 1)) ≡ true
unfolding contest_with eq_text
fits voted h =
    subst (λ v. is_valid_contest v (codes "mayor") 2 (pos 1) (some (pos 1)) ≡ true)
      (some-injective contest voted h) contest-valid

encryptable : (seed : ElementModQ) → IsEncryptable sha256 seed (contest ∷ []) described
encryptable seed = record {
  contest_nonce = mk_q 1;
  derived = item-one _ 0;
  described_valid = described-valid;
  some_selection = omega arith;
  few_placeholders = omega arith;
  nonces_of_selections = (has_nonce alice 0 refl, (has_nonce bob 1 refl, tt));
  nonces_of_placeholders = (has_nonce nobody 2 refl, tt);
  fits = fits;
}

encrypt_ballot-is_valid_encryption_example :
    (b : CiphertextBallot) × (encrypt_ballot gmp sha256
        (pos 9)
        4
        ballot
        metadata
        context
        (mk_q 3)
        none
        true
      ≡ ok (some b))
    × (is_valid_encryption gmp sha256 b (mk_q 5) pair.public_key (mk_q 7) ≡ ok true)
    × (b.object_id ≡ codes "ballot")
    × (b.ballot_style ≡ codes "style")
    × (b.previous_tracking_hash ≡ mk_q 3)
    × (map (λ c. c.object_id) b.contests ≡ codes "mayor" ∷ [])
encrypt_ballot-is_valid_encryption_example =
    encrypt_ballot-is_valid_encryption gmp_laws sha256 (pos 9) 4 ballot metadata context (mk_q 3)
      none true described [] key-is_valid_residue styled (encryptable _, tt)

abbrev mediator : EncryptionMediator
mediator = record { metadata = metadata; encryption = context; seed_hash = mk_q 3 }

-- The same ballot twice, one second apart.
abbrev calls : List Call
calls =
    record { now = pos 9; drawn = 4; ballot = ballot }
    ∷ record { now = pos 10; drawn = 8; ballot = ballot }
    ∷ []

encrypt_all-IsChain_example :
    IsChain
      (mk_q 3)
      (encrypt_all gmp sha256 calls mediator).0
      (encrypt_all gmp sha256 calls mediator).1.seed_hash
encrypt_all-IsChain_example = encrypt_all-IsChain gmp sha256 calls mediator
