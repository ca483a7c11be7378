-- ===== src/Examples/Encryption.antt =====
-- Examples for the encryption of a contest of two selections, one of which is elected, and for its
-- decryption: over digests of one byte.
use electionguard_python.Prelude.{
  ℕ, ◌+◌, ◌<◌, ◌≡◌, refl, ap, ◌∙◌, true, false, none, some, List, [], ◌∷◌, ◌++◌, map, any, arith,
}
use electionguard_python.Prelude.Int.{pos}
use electionguard_python.Prelude.Result.{ok}
use electionguard_python.Prelude.Digits.{codes}
use electionguard_python.Prelude.Texts.{eq_text}
use electionguard_python.External.{Sha256}
use electionguard_python.Group.Constants.{Q_minus_one, Q_minus_one_lem, Q}
use electionguard_python.Group.{mk_q, zero_mod_q, eq_q}
use electionguard_python.Hash.{get_item, Nonces}
use electionguard_python.Hash.Laws.{hash_elems-digest}
use electionguard_python.Election.{
  VoteVariationType, SelectionDescription, ContestDescriptionWithPlaceholders, selection_hash,
  contest_hash, is_valid, collect, add_new, all_new,
}
use electionguard_python.Ballot.Plaintext.{
  PlaintextBallotSelection, PlaintextBallotContest, is_valid_contest, to_int, strtobool,
}
use electionguard_python.Election.Found.{HasDistinctIds}
use electionguard_python.Ballot.Selection.{CiphertextBallotSelection}
use electionguard_python.Ballot.Contest.{CiphertextBallotContest, is_valid_encryption}
use electionguard_python.Encrypt.Contests.{encrypt_contest}
use electionguard_python.Encrypt.Counted.{votes, choice, placeholder_choices}
use electionguard_python.Encrypt.Complete.{AllEncrypted}
use electionguard_python.Encrypt.Complete.Contest.{encrypt_contest-is_valid_encryption}
use electionguard_python.DecryptWithSecrets.Secret.{decrypt_contest_with_secret}
use electionguard_python.DecryptWithSecrets.Nonce.{decrypt_contest_with_nonce}
use electionguard_python.DecryptWithSecrets.Selections.{plaintext, Returns}
use electionguard_python.DecryptWithSecrets.Contest.{decrypt_contest-encrypt_contest}
use electionguard_python.Encrypt.Selections.{nonces_for}
use electionguard_python.Encrypt.Valid.{HasNonce}
use electionguard_python.Examples.StandIns.{gmp, gmp_laws}
use electionguard_python.Examples.Crypto.{
  pair, pair-made, key-is_valid_residue, two-in_bounds, Distinct-three,
}

abbrev pub sha256 : Sha256
sha256 = record { digest = λ bytes. 1 ∷ [] }

one-lt-Q_minus_one : 1 < Q_minus_one
unfolding Q
one-lt-Q_minus_one = omega (arith, Q_minus_one_lem)

pub item-one : (nonces : Nonces) (n : ℕ) → get_item sha256 nonces (pos n) ≡ ok (mk_q 1)
unfolding get_item
item-one nonces n = rw (hash_elems-digest sha256 1 (λ bytes. refl) one-lt-Q_minus_one)

one-ne-zero : eq_q (mk_q 1) zero_mod_q ≡ false
unfolding eq_q
one-ne-zero = refl

abbrev pub alice : SelectionDescription
alice = record { object_id = codes "alice"; candidate_id = codes "a"; sequence_order = pos 0 }

abbrev pub bob : SelectionDescription
bob = record { object_id = codes "bob"; candidate_id = codes "b"; sequence_order = pos 1 }

abbrev pub nobody : SelectionDescription
nobody = record { object_id = codes "nobody"; candidate_id = codes "n"; sequence_order = pos 2 }

abbrev pub described : ContestDescriptionWithPlaceholders
described = record {
  description = record {
    object_id = codes "mayor";
    electoral_district_id = codes "town";
    sequence_order = pos 0;
    vote_variation = VoteVariationType.one_of_m;
    number_elected = pos 1;
    votes_allowed = some (pos 1);
    name = codes "Mayor";
    ballot_selections = alice ∷ bob ∷ [];
    ballot_title = none;
    ballot_subtitle = none;
  };
  placeholder_selections = nobody ∷ [];
}

-- The voter marks one selection.
abbrev pub contest : PlaintextBallotContest
contest = record {
  object_id = codes "mayor";
  ballot_selections =
      record {
        object_id = codes "bob";
        vote = codes "Yes";
        is_placeholder_selection = false;
        extended_data = none;
      }
      ∷ [];
}

pub has_nonce :
    (d : SelectionDescription) (n : ℕ) → d.sequence_order ≡ pos n → HasNonce sha256 (mk_q 1) d
has_nonce d n e =
    let nonces = nonces_for sha256 (selection_hash sha256 d) (mk_q 1) in
    (mk_q 1, ap (get_item sha256 nonces) e ∙ item-one nonces n, one-ne-zero)

pub contest-valid : is_valid_contest contest (codes "mayor") 2 (pos 1) (some (pos 1)) ≡ true
unfolding is_valid_contest to_int strtobool eq_text any
contest-valid = refl

pub described-valid : is_valid described ≡ true
unfolding is_valid all_new collect add_new eq_text any
described-valid = refl

distinct_ids : HasDistinctIds described
unfolding any eq_text
distinct_ids = (refl, (refl, (refl, tt)))

-- What is encrypted: no vote for alice, the vote for bob, and no vote for the placeholder.
abbrev cast : List PlaintextBallotSelection
cast = map (choice contest.ballot_selections) (alice ∷ bob ∷ [])

abbrev filled : List PlaintextBallotSelection
filled = placeholder_choices 1 (nobody ∷ []) (votes cast)

encrypt_contest-is_valid_encryption_example :
    (c : CiphertextBallotContest) × (real placeholders : List CiphertextBallotSelection)
    × (encrypt_contest gmp sha256 contest described pair.public_key (mk_q 2) (mk_q 2) true
        ≡ ok (some c))
    × (is_valid_encryption gmp sha256 c
          (contest_hash sha256 described.description)
          pair.public_key
          (mk_q 2)
        ≡ ok true)
    × (c.object_id ≡ codes "mayor")
    × (c.nonce ≡ some (mk_q 1))
    × (c.description_hash ≡ contest_hash sha256 described.description)
    × (c.ballot_selections ≡ real ++ placeholders)
    × AllEncrypted gmp sha256 pair.public_key (mk_q 2) (mk_q 1) false (alice ∷ bob ∷ []) cast real
    × AllEncrypted gmp sha256 pair.public_key
        (mk_q 2)
        (mk_q 1)
        true
        (nobody ∷ [])
        filled
        placeholders
    × (votes cast + votes filled ≡ 1)
    × (pos 1 ≡ pos 1)
encrypt_contest-is_valid_encryption_example =
    encrypt_contest-is_valid_encryption gmp_laws sha256 pair.public_key (mk_q 2)
      key-is_valid_residue contest described (mk_q 2) (mk_q 1) true contest-valid described-valid
      (omega arith) (omega arith) (item-one _ 0)
      (has_nonce alice 0 refl, (has_nonce bob 1 refl, tt)) (has_nonce nobody 2 refl, tt)

abbrev opened : PlaintextBallotContest
opened = record { object_id = codes "mayor"; ballot_selections = map (plaintext false) cast ++ [] }

decrypt_contest-encrypt_contest_example :
    (c : CiphertextBallotContest) × (encrypt_contest gmp sha256 contest described pair.public_key
        (mk_q 2)
        (mk_q 2)
        true
      ≡ ok (some c))
    × Returns 3
        (decrypt_contest_with_secret gmp sha256 1 c described pair.public_key
          (mk_q 2)
          (mk_q 2)
          false
          true)
        opened
    × Returns 3
        (decrypt_contest_with_nonce gmp sha256 1 c described pair.public_key
          (mk_q 2)
          none
          false
          true)
        opened
    × Returns 3
        (decrypt_contest_with_nonce gmp sha256 1 c described pair.public_key
          (mk_q 2)
          (some (mk_q 2))
          false
          true)
        opened
decrypt_contest-encrypt_contest_example =
    decrypt_contest-encrypt_contest gmp_laws sha256 (mk_q 2) (mk_q 2) 3 1 Distinct-three
      (omega arith) (omega arith) two-in_bounds pair-made contest described (mk_q 2) (mk_q 1) true
      false true contest-valid described-valid distinct_ids (omega arith) (omega arith)
      (item-one _ 0) (has_nonce alice 0 refl, (has_nonce bob 1 refl, tt))
      (has_nonce nobody 2 refl, tt)
