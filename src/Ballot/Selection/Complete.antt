-- ===== src/Ballot/Selection/Complete.antt =====
-- The verifier of an encrypted selection accepts what make_ciphertext_ballot_selection makes
-- (ballot.py).
use electionguard_python.Prelude.{ℕ, ◌≤◌, ◌≡◌, refl, Bool, true, Option, none, some}
use electionguard_python.Prelude.Int.{pos}
use electionguard_python.Prelude.Result.{ok}
use electionguard_python.Prelude.Digits.{Text}
use electionguard_python.External.{Gmp, GmpLaws, Sha256}
use electionguard_python.Group.{ElementModQ, ElementModP, is_in_bounds_q, is_valid_residue}
use electionguard_python.Group.Elements.{eq_q_self}
use electionguard_python.Elgamal.{ElGamalCiphertext, elgamal_encrypt}
use electionguard_python.ChaumPedersen.Disjunctive.{make_disjunctive_chaum_pedersen-is_valid}
use electionguard_python.Ballot.Selection.{
  CiphertextBallotSelection, selection_proof, is_valid_encryption, crypto_hash_with,
  make_ciphertext_ballot_selection,
}

module _ {gmp : Gmp} (laws : GmpLaws gmp) (sha256 : Sha256) where
  -- A selection made from an encryption of 0 or 1, with its nonce in bounds and under any public key
  -- that is a valid residue, and with neither hash nor proof given, is made with a proof, and it is
  -- valid for the hash of its description, that key and that base hash.
  pub make_ciphertext_ballot_selection-is_valid_encryption :
      (object_id : Text) (description_hash base_hash proof_seed nonce : ElementModQ)
      (key : ElementModP) (vote : ℕ) (placeholder : Bool) (extended_data : Option ElGamalCiphertext)
      {c : ElGamalCiphertext}
      → vote ≤ 1
      → is_in_bounds_q nonce ≡ true
      → is_valid_residue gmp key ≡ true
      → elgamal_encrypt gmp (pos vote) nonce key ≡ some c
      → (selection : CiphertextBallotSelection) × (make_ciphertext_ballot_selection gmp sha256
            object_id description_hash c key base_hash proof_seed
            (pos vote)
            placeholder
            (some nonce)
            none
            none
            extended_data
          ≡ ok selection)
        × (is_valid_encryption gmp sha256 selection description_hash key base_hash ≡ true)
  unfolding make_ciphertext_ballot_selection selection_proof is_valid_encryption crypto_hash_with
  make_ciphertext_ballot_selection-is_valid_encryption object_id description_hash base_hash
        proof_seed nonce key vote placeholder extended_data {c} hv hn hk he =
      let (proof, made, valid) =
        make_disjunctive_chaum_pedersen-is_valid laws sha256 vote nonce proof_seed base_hash key hv
          hn hk he in
      rw (made) (_, refl, simp (eq_q_self, valid))
