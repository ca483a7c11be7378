-- ===== src/Guardian/Compensate.antt =====
-- guardian.py: the share of a decryption that a guardian makes for a missing guardian.
use electionguard_python.Prelude.{ℕ, ◌<◌, ◌≡◌, refl, sym, ap, ◌∙◌, true, Option, some}
use electionguard_python.Prelude.Int.{pos}
use electionguard_python.Prelude.Result.{Result, ok, raise}
use electionguard_python.Prelude.Digits.{Text}
use electionguard_python.External.{Gmp, GmpLaws, Sha256}
use electionguard_python.Group.Constants.{Q}
use electionguard_python.Group.{
  ElementModQ, ElementModP, of_q, is_in_bounds_q, is_valid_residue, g_pow_p,
}
use electionguard_python.Group.Hex.{hex_to_q}
use electionguard_python.Elgamal.{ElGamalCiphertext, partial_decrypt}
use electionguard_python.ChaumPedersen.{ChaumPedersenProof, generic_is_valid}
use electionguard_python.ChaumPedersen.Generic.{make_chaum_pedersen-is_valid}
use electionguard_python.ElectionPolynomial.{compute_polynomial_coordinate, generate_polynomial}
use electionguard_python.DataStore.{get}
use electionguard_python.KeyCeremony.{ElectionPartialKeyBackup}
use electionguard_python.KeyCeremony.Backups.{computed-is_in_bounds_q}
use electionguard_python.Guardian.{Guardian}
use electionguard_python.Guardian.Decrypt.{
  seed_or_drawn, share_with, compensate_with, compensate_decrypt, recovery_public_key_for,
}
use electionguard_python.Guardian.Recovery.{recovery_public_key_for-compute_polynomial_coordinate}

abbrev value_or : ElementModQ → Result ElementModQ → ElementModQ
value_or default (ok a) = a
value_or default (raise e) = default

-- Where a guardian with a sequence order below Q has a backup with the commitments of a polynomial that
-- generate_polynomial made, and the auxiliary scheme decrypts the backup to a text that hex_to_q reads
-- as the polynomial's coordinate at the sequence order, compensate_decrypt makes a share of the
-- decryption of every ciphertext of valid residues, for every base hash in bounds, with a seed or
-- without. The share is the partial decryption by the coordinate, and the proof of the share is
-- accepted, with that base hash, for the public key that the guardian recovers from the commitments.
pub compensate_decrypt-is_valid :
    {gmp : Gmp}
    → GmpLaws gmp
    → (sha256 : Sha256) (seed : Option ElementModQ) (drawn drawn_proof : ℕ → ℕ) (x number : ℕ)
      (missing : Text) (backup : ElectionPartialKeyBackup) (g : Guardian) (coordinate : ElementModQ)
      (decrypt : Text → Text → Option Text) (elgamal : ElGamalCiphertext) (base_hash : ElementModQ)
      (nonce : Option ElementModQ) (drawn_nonce : ℕ) (text : Text)
    → x < Q
    → g.sequence_order ≡ pos x
    → get missing g.election_partial_key_backups ≡ some backup
    → let polynomial = generate_polynomial gmp sha256 (pos number) seed drawn drawn_proof in
      backup.coefficient_commitments ≡ polynomial.coefficient_commitments
      → compute_polynomial_coordinate gmp g.sequence_order polynomial ≡ ok coordinate
      → decrypt backup.encrypted_value g.auxiliary_keys.secret_key ≡ some text
      → hex_to_q text ≡ ok (some coordinate)
      → is_valid_residue gmp elgamal.pad ≡ true
      → is_valid_residue gmp elgamal.encrypted_data ≡ true
      → is_in_bounds_q base_hash ≡ true
      → let share = partial_decrypt gmp elgamal coordinate in
        (proof : ChaumPedersenProof) × (recovery_key : ElementModP) × (compensate_decrypt gmp sha256
            missing elgamal base_hash nonce drawn_nonce decrypt g
          ≡ ok (some (share, proof)))
        × (recovery_public_key_for gmp missing g ≡ some recovery_key)
        × (generic_is_valid gmp sha256 proof elgamal recovery_key share base_hash ≡ true)
unfolding compensate_decrypt compensate_with share_with
compensate_decrypt-is_valid {gmp} laws sha256 seed drawn drawn_proof x number missing backup g
      coordinate decrypt elgamal base_hash nonce drawn_nonce text hx order there commitments
      computed decrypted read ha hb hq =
    let polynomial = generate_polynomial gmp sha256 (pos number) seed drawn drawn_proof in
    let bounded = computed-is_in_bounds_q gmp g.sequence_order polynomial coordinate computed in
    let (w, computed', recovered) =
      recovery_public_key_for-compute_polynomial_coordinate laws sha256 seed drawn drawn_proof x
        number missing backup g hx order there commitments in
    let same : w ≡ coordinate = ap (value_or w) (sym computed' ∙ computed) in
    let (proof, made, accepted) =
      make_chaum_pedersen-is_valid laws sha256 elgamal coordinate (seed_or_drawn nonce drawn_nonce)
        base_hash ha hb bounded hq in
    (
      proof,
      g_pow_p gmp (of_q coordinate),
      rw (there, decrypted, read, made, compensate_decrypt) refl,
      recovered ∙ ap (λ t. some (g_pow_p gmp (of_q t))) same,
      accepted,
    )
