-- ===== src/Guardian/Laws.antt =====
-- guardian.py: what a guardian knows when it publishes the joint key, and its decryption shares.
use electionguard_python.Prelude.{
  ℕ, ◌≡◌, refl, sym, ap, ◌∙◌, Bool, true, not, Option, none, some, List, [], ◌∷◌, all, length,
  arith, if◌then◌else◌,
}
use electionguard_python.Prelude.Int.{pos, ◌-ℤ◌, ◌==ℤ◌}
use electionguard_python.Prelude.Result.{ok}
use electionguard_python.Prelude.Digits.{Text}
use electionguard_python.Prelude.Dict.{Dict, put}
use electionguard_python.External.{Gmp, GmpLaws, Sha256}
use electionguard_python.Group.{ElementModQ, of_q, is_in_bounds_q, is_valid_residue, g_pow_p}
use electionguard_python.Elgamal.{ElGamalCiphertext, partial_decrypt}
use electionguard_python.ChaumPedersen.{ChaumPedersenProof, generic_is_valid}
use electionguard_python.ChaumPedersen.Generic.{make_chaum_pedersen-is_valid}
use electionguard_python.DataStore.{set, size, values}
use electionguard_python.KeyCeremony.{ElectionPartialKeyVerification, combine_election_public_keys}
use electionguard_python.Guardian.{
  Guardian, is_truthy, save_election_partial_key_verification, all_election_public_keys_received,
  all_election_partial_key_backups_verified, publish_joint_key,
}
use electionguard_python.Guardian.Decrypt.{seed_or_drawn, share_with, partially_decrypt}

length-put {ℓ} :
    {A : Type ℓ} (key : Text) (a b : A) (d : Dict A) → length (put key a d) ≡ length (put key b d)
unfolding put
length-put key a b [] = refl
length-put key a b ((k, v) ∷ d) = ground (arith, length-put key a b d)

all_truthy : (vs : List ElectionPartialKeyVerification) → all is_truthy vs ≡ true
unfolding all is_truthy
all_truthy [] = refl
all_truthy (v ∷ vs) = all_truthy vs

-- A guardian counts the verifications, and takes any outcome.
verified-count :
    (g : Guardian)
    → all_election_partial_key_backups_verified g ≡ (
        pos (size g.election_partial_key_verifications)
        ==ℤ (g.ceremony_details.number_of_guardians -ℤ pos 1))
unfolding all_election_partial_key_backups_verified
verified-count g = ground (arith, all_truthy (values g.election_partial_key_verifications))

save-verified :
    (v : ElectionPartialKeyVerification) (g : Guardian) (outcome : Bool)
    → all_election_partial_key_backups_verified
        (save_election_partial_key_verification (record v { verified = outcome }) g)
      ≡ all_election_partial_key_backups_verified (save_election_partial_key_verification v g)
unfolding save_election_partial_key_verification set size
save-verified v g outcome =
    let failed = record v { verified = outcome } in
    let required = g.ceremony_details.number_of_guardians -ℤ pos 1 in
    verified-count (save_election_partial_key_verification failed g)
    ∙ ap (λ n. pos n ==ℤ required)
        (length-put v.designated_id failed v g.election_partial_key_verifications.store)
    ∙ sym (verified-count (save_election_partial_key_verification v g))

-- Whether a guardian takes all backups for verified, and the joint key that it publishes, do not depend
-- on the outcome of a verification that it saves: they are the same for a failed verification.
pub publish_joint_key-save_failed :
    (v : ElectionPartialKeyVerification) (g : Guardian) (outcome : Bool)
    → let failed = record v { verified = outcome } in
      (all_election_partial_key_backups_verified (save_election_partial_key_verification failed g)
        ≡ all_election_partial_key_backups_verified (save_election_partial_key_verification v g))
      × (publish_joint_key (save_election_partial_key_verification failed g)
          ≡ publish_joint_key (save_election_partial_key_verification v g))
unfolding publish_joint_key all_election_public_keys_received save_election_partial_key_verification
publish_joint_key-save_failed v g outcome = (
  save-verified v g outcome,
  ap
      (λ t.
        if not (all_election_public_keys_received g)
        then none
        else if not t
        then none
        else some (combine_election_public_keys g.election_public_keys))
      (save-verified v g outcome),
)

module _ {gmp : Gmp} (laws : GmpLaws gmp) (sha256 : Sha256) where
  -- A guardian whose secret key is in bounds and whose public key is the power of the generator to it
  -- makes a share of the decryption of every ciphertext of valid residues, for every base hash in
  -- bounds, with a seed or without. The share is the partial decryption with its secret key, and the
  -- proof of the share is accepted for its public key and that base hash.
  pub partially_decrypt-is_valid :
      (elgamal : ElGamalCiphertext) (base_hash : ElementModQ) (seed : Option ElementModQ)
      (drawn : ℕ) (g : Guardian)
      → is_valid_residue gmp elgamal.pad ≡ true
      → is_valid_residue gmp elgamal.encrypted_data ≡ true
      → is_in_bounds_q base_hash ≡ true
      → is_in_bounds_q g.election_keys.key_pair.secret_key ≡ true
      → g.election_keys.key_pair.public_key ≡ g_pow_p gmp (of_q g.election_keys.key_pair.secret_key)
      → let share = partial_decrypt gmp elgamal g.election_keys.key_pair.secret_key in
        (proof : ChaumPedersenProof) × (partially_decrypt gmp sha256 elgamal base_hash seed drawn g
          ≡ ok (share, proof))
        × (generic_is_valid gmp sha256 proof elgamal g.election_keys.key_pair.public_key share
              base_hash
            ≡ true)
  unfolding partially_decrypt share_with
  partially_decrypt-is_valid elgamal base_hash seed drawn g ha hb hq hs public =
      let (proof, made, accepted) =
        make_chaum_pedersen-is_valid laws sha256 elgamal g.election_keys.key_pair.secret_key
          (seed_or_drawn seed drawn) base_hash ha hb hs hq in
      (proof, rw made refl, rw public accepted)
