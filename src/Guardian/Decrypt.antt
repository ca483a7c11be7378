-- ===== src/Guardian/Decrypt.antt =====
-- guardian.py: a guardian's share of a decryption, and its share for a guardian that is missing. A
-- seed that is not given is drawn: it is what randbelow(Q) returns.
use electionguard_python.Prelude.{ℕ, ◌+◌, Option, none, some, List, [], ◌∷◌}
use electionguard_python.Prelude.Int.{ℤ, pos}
use electionguard_python.Prelude.Result.{Result, ok, get_optional, ◌>>=◌}
use electionguard_python.Prelude.Digits.{Text}
use electionguard_python.External.{Gmp, Sha256}
use electionguard_python.Group.{
  ElementModQ, ElementModP, of_p, of_q, of_int, one_mod_p, rand_q, mult_p, pow_p, pow_q,
}
use electionguard_python.Group.Hex.{hex_to_q}
use electionguard_python.Elgamal.{ElGamalCiphertext, partial_decrypt}
use electionguard_python.ChaumPedersen.{ChaumPedersenProof}
use electionguard_python.ChaumPedersen.Provers.{make_chaum_pedersen}
use electionguard_python.DataStore.{get}
use electionguard_python.Guardian.{Guardian}

abbrev pub seed_or_drawn : Option ElementModQ → ℕ → ElementModQ
seed_or_drawn none drawn = rand_q drawn
seed_or_drawn (some seed) drawn = seed

module _ (gmp : Gmp) (sha256 : Sha256) where
  -- A partial decryption with a secret, and its proof.
  unfoldable pub share_with :
      ElGamalCiphertext
      → ElementModQ
      → ElementModQ
      → ElementModQ
      → Result (ElementModP × ChaumPedersenProof)
  share_with elgamal secret base_hash seed =
      let partial_decryption = partial_decrypt gmp elgamal secret in
      do
        proof ← make_chaum_pedersen gmp sha256 elgamal secret partial_decryption seed base_hash
        ok (partial_decryption, proof)

  unfoldable pub partially_decrypt :
      ElGamalCiphertext
      → ElementModQ
      → Option ElementModQ
      → ℕ
      → Guardian
      → Result (ElementModP × ChaumPedersenProof)
  unfolding share_with
  partially_decrypt elgamal base_hash nonce_seed drawn g =
      share_with elgamal g.election_keys.key_pair.secret_key base_hash
        (seed_or_drawn nonce_seed drawn)

  -- From the decrypted backup on, where it was decrypted.
  unfoldable pub compensate_with :
      ElGamalCiphertext
      → ElementModQ
      → ElementModQ
      → Option Text
      → Result (Option (ElementModP × ChaumPedersenProof))
  unfolding share_with
  compensate_with elgamal base_hash seed none = ok none
  compensate_with elgamal base_hash seed (some decrypted_value) = do
    read ← hex_to_q decrypted_value
    partial_secret_key ← get_optional read
    share ← share_with elgamal partial_secret_key base_hash seed
    ok (some share)

  unfoldable pub compensate_decrypt :
      Text
      → ElGamalCiphertext
      → ElementModQ
      → Option ElementModQ
      → ℕ
      → (Text → Text → Option Text)
      → Guardian
      → Result (Option (ElementModP × ChaumPedersenProof))
  unfolding compensate_with
  compensate_decrypt missing_guardian_id elgamal base_hash nonce_seed drawn decrypt g =
      elim (get missing_guardian_id g.election_partial_key_backups) [
        | none ↦ ok none
        | some backup ↦
            compensate_with elgamal base_hash (seed_or_drawn nonce_seed drawn)
              (decrypt backup.encrypted_value g.auxiliary_keys.secret_key)
      ]

module _ (gmp : Gmp) where
  -- The loop over the commitments, from the index-th.
  unfoldable pub recovery_from : ℤ → ℕ → ElementModP → List ElementModP → ElementModP
  recovery_from sequence_order index pub_key [] = pub_key
  recovery_from sequence_order index pub_key (commitment ∷ commitments) =
      let exponent = pow_q gmp (of_int sequence_order) (of_int (pos index)) in
      recovery_from sequence_order (index + 1)
        (mult_p (of_p pub_key ∷ of_p (pow_p gmp (of_p commitment) (of_q exponent)) ∷ []))
        commitments

  unfoldable pub recovery_public_key_for : Text → Guardian → Option ElementModP
  unfolding recovery_from
  recovery_public_key_for missing_guardian_id g =
      elim (get missing_guardian_id g.election_partial_key_backups) [
        | none ↦ none
        | some backup ↦
            some (recovery_from g.sequence_order 0 one_mod_p backup.coefficient_commitments)
      ]
