-- ===== src/Examples/Ceremony.antt =====
-- Examples for the key ceremony: a polynomial of two coefficients, a guardian of the sequence order 1,
-- and an auxiliary scheme that puts a character before the message, and decrypts it in lower case.
use electionguard_python.Prelude.{◌≡◌, ◌⊎◌, sym, ap, map, true, Option, none, some, [], ◌∷◌}
use electionguard_python.Prelude.Int.{pos}
use electionguard_python.Prelude.Result.{Result, ok}
use electionguard_python.Prelude.Digits.{Text, codes}
use electionguard_python.Modular.{one_pow}
use electionguard_python.Group.Constants.{one-lt-P, one-lt-Q}
use electionguard_python.Group.{ElementModQ}
use electionguard_python.Group.Hex.{to_hex_q}
use electionguard_python.Group.Hex.RoundTrip.{lower_case, hex_to_q-lower_case}
use electionguard_python.ElectionPolynomial.{
  ElectionPolynomial, compute_polynomial_coordinate, generate_polynomial,
}
use electionguard_python.KeyCeremony.{
  AuxiliaryKeyPair, ElectionPartialKeyBackup, ElectionPartialKeyChallenge,
  generate_election_partial_key_backup, verify_election_partial_key_backup,
  generate_election_partial_key_challenge, verify_election_partial_key_challenge,
}
use electionguard_python.KeyCeremony.Backups.{
  Decrypts, verify-generate_election_partial_key_backup,
  verify-generate_election_partial_key_challenge,
}
use electionguard_python.Examples.StandIns.{gmp, gmp_laws, sha256}
use electionguard_python.Examples.Ballots.{two}

abbrev encrypt : Text → Text → Option Text
encrypt m key = some (7 ∷ m)

abbrev pub decrypt : Text → Text → Option Text
decrypt [] key = none
decrypt (c ∷ m) key = some (map lower_case m)

abbrev keys : AuxiliaryKeyPair
keys = record { secret_key = codes "secret"; public_key = codes "public" }

scheme : Decrypts encrypt decrypt (codes "public") keys.secret_key
scheme = record {
  decrypts = λ c encrypted bounded made. (
    map lower_case (to_hex_q c),
    ap (λ e. decrypt e keys.secret_key) (sym (some-injective made)),
    hex_to_q-lower_case c bounded,
  );
}
  where
    some-injective : {x y : Text} → some x ≡ some y → x ≡ y
    some-injective h = cc h

abbrev pub polynomial : ElectionPolynomial
polynomial = generate_polynomial gmp sha256 (pos 2) (some two) (λ i. 2) (λ i. 2)

abbrev generated : Result (Option ElectionPartialKeyBackup)
generated =
    generate_election_partial_key_backup gmp (codes "g0") polynomial
      (record { owner_id = codes "g1"; sequence_order = pos 1; key = codes "public" }) encrypt

verify-generate_election_partial_key_backup_example :
    (coordinate : ElementModQ) × (compute_polynomial_coordinate gmp (pos 1) polynomial
      ≡ ok coordinate)
    × (((encrypt (to_hex_q coordinate) (codes "public") ≡ none) × (generated ≡ ok none))
        ⊎ ((backup : ElectionPartialKeyBackup) × (encrypt (to_hex_q coordinate) (codes "public")
              ≡ some backup.encrypted_value)
            × (generated ≡ ok (some backup))
            × (verify_election_partial_key_backup gmp (codes "g1") backup keys decrypt
                ≡ ok (record {
                  owner_id = codes "g0";
                  designated_id = codes "g1";
                  verifier_id = codes "g1";
                  verified = true;
                }))))
verify-generate_election_partial_key_backup_example =
    verify-generate_election_partial_key_backup gmp sha256 (some two) (λ i. 2) (λ i. 2) gmp_laws 1 2
      one-lt-Q (λ j below. rw (one_pow j) one-lt-P) (codes "g0") (codes "g1") (codes "g1")
      (codes "public") keys encrypt decrypt scheme

verify-generate_election_partial_key_challenge_example :
    (challenge : ElectionPartialKeyChallenge) × (generate_election_partial_key_challenge gmp
        (record {
          owner_id = codes "g0";
          designated_id = codes "g1";
          designated_sequence_order = pos 1;
          encrypted_value = [];
          coefficient_commitments = polynomial.coefficient_commitments;
          coefficient_proofs = polynomial.coefficient_proofs;
        })
        polynomial
      ≡ ok challenge)
    × (verify_election_partial_key_challenge gmp (codes "g2") challenge ≡ record {
      owner_id = codes "g0";
      designated_id = codes "g1";
      verifier_id = codes "g2";
      verified = true;
    })
verify-generate_election_partial_key_challenge_example =
    verify-generate_election_partial_key_challenge gmp sha256 (some two) (λ i. 2) (λ i. 2) gmp_laws
      1 2 one-lt-Q (λ j below. rw (one_pow j) one-lt-P) (codes "g0") (codes "g1") (codes "g2") []
