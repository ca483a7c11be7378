-- ===== src/DecryptWithSecrets/Opened.antt =====
-- A contest is decrypted to what the loop over its selections returns (decrypt_with_secrets.py).
use electionguard_python.Prelude.{
  ℕ, ◌%◌, ◌^◌, ◌≡◌, refl, ap, ◌∙◌, Bool, true, false, Option, none, some, List,
}
use electionguard_python.Prelude.Result.{Result, ok}
use electionguard_python.Prelude.Digits.{Text}
use electionguard_python.Prelude.Int.{ℤ}
use electionguard_python.External.{Gmp, GmpLaws, Sha256}
use electionguard_python.Group.{ElementModQ, ElementModP, is_in_bounds_q, is_valid_residue}
use electionguard_python.Group.Constants.{P, G}
use electionguard_python.Group.Elements.{is_in_bounds_q-mk}
use electionguard_python.Group.Residues.{mk-is_valid_residue, IsResidue-G-pow}
use electionguard_python.Elgamal.{ElGamalKeyPair, elgamal_keypair_from_secret}
use electionguard_python.Elgamal.Decrypt.{elgamal_keypair_from_secret-mk}
use electionguard_python.Election.{ContestDescriptionWithPlaceholders, contest_hash}
use electionguard_python.Ballot.Plaintext.{PlaintextBallotSelection, PlaintextBallotContest}
use electionguard_python.Ballot.Selection.{CiphertextBallotSelection}
use electionguard_python.Ballot.Contest.{CiphertextBallotContest, is_valid_encryption}
use electionguard_python.DecryptWithSecrets.Actions.{Action, decrypt_selections, if_valid}
use electionguard_python.DecryptWithSecrets.Secret.{
  decrypt_selection_with_secret, decrypt_contest_with_secret,
}
use electionguard_python.DecryptWithSecrets.Nonce.{
  nonce_of, decrypt_selection_with_nonce, decrypt_contest_with_nonce,
}
use electionguard_python.DecryptWithSecrets.Selections.{Returns, checked_kept}

pub public_key-is_valid_residue :
    {gmp : Gmp} (laws : GmpLaws gmp) (secret : ElementModQ) {pair : ElGamalKeyPair}
    → is_in_bounds_q secret ≡ true
    → elgamal_keypair_from_secret gmp secret ≡ some pair
    → is_valid_residue gmp pair.public_key ≡ true
public_key-is_valid_residue {gmp} laws secret hx hp =
    let (x, secret_x, _) = is_in_bounds_q-mk secret hx in
    let public = (elgamal_keypair_from_secret-mk laws x (rw secret_x at hp)).1 in
    rw public (mk-is_valid_residue laws (G ^ x % P) (IsResidue-G-pow x))

-- The nonce that is kept, where no seed is given, is checked against itself.
pub nonce_of-kept :
    (sha256 : Sha256) (kept : Option ElementModQ) (hash : ElementModQ) (i : ℤ) {n : ElementModQ}
    → kept ≡ some n
    → nonce_of sha256 kept hash i none ≡ ok (some n)
unfolding nonce_of
nonce_of-kept sha256 kept hash i h = ap ok h

if_valid-valid :
    {A : Type 0} (suppress : Bool) (verdict : Result Bool) {next : Action A}
    → verdict ≡ ok true
    → if_valid suppress verdict next ≡ next
unfolding if_valid
if_valid-valid true verdict h = refl
if_valid-valid false verdict h = rw (h, if_valid)

module _ (gmp : Gmp) (sha256 : Sha256) (fuel bound : ℕ) (c : CiphertextBallotContest)
    (described : ContestDescriptionWithPlaceholders) (key : ElementModP) (base_hash : ElementModQ)
    (suppress remove : Bool)
    (valid : is_valid_encryption gmp sha256 c
        (contest_hash sha256 described.description)
        key
        base_hash
      ≡ ok true)
    (object_id : Text) (same_id : c.object_id ≡ object_id)
    (selections : List CiphertextBallotSelection)
    (same_selections : c.ballot_selections ≡ selections)
    (opened : List PlaintextBallotSelection) where
  -- What the contest is decrypted to where the loop over its selections returns.
  abbrev pub opened_contest : PlaintextBallotContest
  opened_contest = record { object_id = object_id; ballot_selections = opened }

  pub with_secret-Returns :
      (secret : ElementModQ)
      → Returns bound
          (decrypt_selections
            (λ s d. decrypt_selection_with_secret gmp sha256 fuel s d key secret base_hash suppress)
            described
            remove
            selections)
          opened
      → Returns bound
          (decrypt_contest_with_secret gmp sha256 fuel c described key secret base_hash suppress
            remove)
          opened_contest
  unfolding decrypt_contest_with_secret
  with_secret-Returns secret loop st ready =
      let (st', looped, ready') = loop st ready in
      (
        st',
        ap (λ action. action st) (if_valid-valid suppress _ valid)
            ∙ rw (same_selections, same_id, looped) refl,
        ready',
      )

  pub with_nonce-Returns :
      (given : Option ElementModQ) (nonce : ElementModQ)
      → let d = described.description in
        nonce_of sha256 c.nonce (contest_hash sha256 d) d.sequence_order given ≡ ok (some nonce)
        → c.nonce ≡ some nonce
        → Returns bound
            (decrypt_selections
              (λ s d.
                decrypt_selection_with_nonce gmp sha256 fuel s d key base_hash
                  (some nonce)
                  suppress)
              described
              remove
              selections)
            opened
        → Returns bound
            (decrypt_contest_with_nonce gmp sha256 fuel c described key base_hash given suppress
              remove)
            opened_contest
  unfolding decrypt_contest_with_nonce
  with_nonce-Returns given nonce derived kept loop st ready =
      let (st', looped, ready') = loop st ready in
      (
        st',
        ap (λ action. action st) (if_valid-valid suppress _ valid)
            ∙ rw (derived, checked_kept nonce c.nonce kept, same_selections, same_id, looped) refl,
        ready',
      )
