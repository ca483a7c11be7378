-- ===== src/Encrypt/Valid.antt =====
-- A selection that encrypt_selection returns holds the vote and is valid (encrypt.py).
use electionguard_python.Prelude.{
  ℕ, ◌≤◌, ◌≡◌, ◌≢◌, refl, sym, ap, ◌∙◌, Bool, true, false, Option, none, some, arith,
}
use electionguard_python.Prelude.Int.{ℤ, pos, negsuc}
use electionguard_python.Prelude.Result.{ok}
use electionguard_python.Prelude.Digits.{Text}
use electionguard_python.Prelude.Texts.{eq_text→eq}
use electionguard_python.External.{Gmp, GmpLaws, Sha256}
use electionguard_python.Group.{
  ElementModQ, ElementModP, zero_mod_q, eq_q, is_in_bounds_q, is_valid_residue, int_to_q,
}
use electionguard_python.Group.Constants.{one-lt-Q}
use electionguard_python.Hash.{Nonces, hash_elems, get_item, elem_q, int, item, end}
use electionguard_python.Hash.Laws.{hash_elems-is_in_bounds}
use electionguard_python.Elgamal.{ElGamalCiphertext, elgamal_encrypt}
use electionguard_python.Election.{SelectionDescription, selection_hash}
use electionguard_python.Ballot.Plaintext.{PlaintextBallotSelection, to_int, is_valid_selection}
use electionguard_python.Ballot.Selection.{
  CiphertextBallotSelection, is_valid_encryption, make_ciphertext_ballot_selection,
}
use electionguard_python.Ballot.Selection.Complete.{
  make_ciphertext_ballot_selection-is_valid_encryption,
}
use electionguard_python.Encrypt.Selections.{
  nonces_for, verified_selection, encrypted_selection, encrypt_selection,
}

pub get_item-is_in_bounds :
    (sha256 : Sha256) (nonces : Nonces) (i : ℤ) {n : ElementModQ}
    → get_item sha256 nonces i ≡ ok n
    → is_in_bounds_q n ≡ true
unfolding get_item
get_item-is_in_bounds sha256 nonces (pos i) h =
    ground
      (arith, hash_elems-is_in_bounds sha256 (item (elem_q nonces.seed) (item (int (pos i)) end)))
get_item-is_in_bounds sha256 nonces (negsuc i) h = ground arith

pub to_int-le-one : (s : PlaintextBallotSelection) → to_int s ≤ 1
unfolding to_int
to_int-le-one s = ground arith

valid_selection-id :
    (s : PlaintextBallotSelection) (object_id : Text)
    → is_valid_selection s object_id ≡ true
    → s.object_id ≡ object_id
unfolding is_valid_selection
valid_selection-id s object_id h = ground (arith, eq_text→eq s.object_id object_id)

-- What a description's selection nonce is: for a sequence order that is not negative, and not zero.
abbrev pub HasNonce : Sha256 → ElementModQ → SelectionDescription → Type 0
HasNonce sha256 seed d =
    (nonce : ElementModQ) × (get_item sha256 (nonces_for sha256 (selection_hash sha256 d) seed)
        d.sequence_order
      ≡ ok nonce)
    × (eq_q nonce zero_mod_q ≡ false)

pub some_of_ne_none {ℓ} : {A : Type ℓ} (o : Option A) → o ≢ none → (a : A) × (o ≡ some a)
some_of_ne_none none h = absurd (h refl)
some_of_ne_none (some a) h = (a, refl)

module _ (gmp : Gmp) (sha256 : Sha256) where
  elgamal_encrypt-ne-none :
      (m : ℕ) (nonce : ElementModQ) (key : ElementModP)
      → m ≤ 1
      → eq_q nonce zero_mod_q ≡ false
      → elgamal_encrypt gmp (pos m) nonce key ≢ none
  unfolding elgamal_encrypt int_to_q
  elgamal_encrypt-ne-none m nonce key h k = ground (arith, one-lt-Q)

  -- The fields of a selection that is made.
  made_fields :
      (object_id : Text) (description_hash : ElementModQ) (c : ElGamalCiphertext)
      (key : ElementModP) (base_hash proof_seed : ElementModQ) (vote : ℤ) (placeholder : Bool)
      (kept : Option ElementModQ) {s : CiphertextBallotSelection}
      → make_ciphertext_ballot_selection gmp sha256 object_id description_hash c key base_hash
          proof_seed vote placeholder kept none none none
        ≡ ok s
      → (s.object_id ≡ object_id)
        × (s.ciphertext ≡ c)
        × (s.nonce ≡ kept)
        × (s.is_placeholder_selection ≡ placeholder)
        × (s.description_hash ≡ description_hash)
  unfolding make_ciphertext_ballot_selection
  made_fields object_id description_hash c key base_hash proof_seed vote placeholder kept h =
      ground arith

  -- An encryption of a vote for a description.
  pub record Encrypted (d : SelectionDescription) (key : ElementModP)
      (base_hash nonce : ElementModQ) (s : PlaintextBallotSelection) (placeholder : Bool)
      (c : CiphertextBallotSelection) : Type 0 where
    pub valid : is_valid_encryption gmp sha256 c (selection_hash sha256 d) key base_hash ≡ true
    pub encrypts : elgamal_encrypt gmp (pos (to_int s)) nonce key ≡ some c.ciphertext
    pub keeps_hash : c.description_hash ≡ selection_hash sha256 d
    pub keeps_nonce : c.nonce ≡ some nonce
    pub keeps_id : c.object_id ≡ s.object_id
    pub for_description : s.object_id ≡ d.object_id
    pub keeps_placeholder : c.is_placeholder_selection ≡ placeholder

  valid-proof :
      (hash : ElementModQ) (key : ElementModP) (base_hash : ElementModQ)
      (c : CiphertextBallotSelection)
      → is_valid_encryption gmp sha256 c hash key base_hash ≡ true
      → c.proof ≢ none
  unfolding is_valid_encryption
  valid-proof hash key base_hash c h = ground arith

  verified_selection-valid :
      (hash : ElementModQ) (key : ElementModP) (base_hash : ElementModQ) (verify : Bool)
      (c : CiphertextBallotSelection)
      → is_valid_encryption gmp sha256 c hash key base_hash ≡ true
      → verified_selection gmp sha256 hash key base_hash verify c ≡ some c
  unfolding verified_selection
  verified_selection-valid hash key base_hash verify c h =
      let (p, e) = some_of_ne_none c.proof (valid-proof hash key base_hash c h) in
      rw (e, verified_selection) (ground arith)

module _ {gmp : Gmp} (laws : GmpLaws gmp) (sha256 : Sha256) where
  -- A selection that is valid for a description with a nonce is encrypted, under any public key that
  -- is a valid residue, whether or not its proof is to be verified. What is returned is valid, holds
  -- the vote and keeps the nonce, the id and the mark of a placeholder.
  pub encrypt_selection-Encrypted :
      (s : PlaintextBallotSelection) (d : SelectionDescription) (key : ElementModP)
      (base_hash seed : ElementModQ) (placeholder verify : Bool)
      → is_valid_selection s d.object_id ≡ true
      → is_valid_residue gmp key ≡ true
      → (n : HasNonce sha256 seed d)
      → (c : CiphertextBallotSelection) × (encrypt_selection gmp sha256 s d key base_hash seed
            placeholder verify
          ≡ ok (some c))
        × Encrypted gmp sha256 d key base_hash n.0 s placeholder c
  unfolding encrypt_selection encrypted_selection get_item
  encrypt_selection-Encrypted s d key base_hash seed placeholder verify hs hk
        (nonce, derived, nonzero) =
      let hash = selection_hash sha256 d in
      let (e, encrypted) =
        some_of_ne_none (elgamal_encrypt gmp (pos (to_int s)) nonce key)
          (elgamal_encrypt-ne-none gmp sha256 (to_int s) nonce key (to_int-le-one s) nonzero) in
      let (c, made, valid) =
        make_ciphertext_ballot_selection-is_valid_encryption laws sha256 s.object_id hash base_hash
          (hash_elems sha256
            (item (elem_q (nonces_for sha256 hash seed).seed) (item (int (pos 0)) end)))
          nonce key (to_int s) placeholder none (to_int-le-one s)
          (get_item-is_in_bounds sha256 _ d.sequence_order derived) hk encrypted in
      let (same_id, same_cipher, same_nonce, same_placeholder, same_hash) =
        made_fields gmp sha256 s.object_id hash e key base_hash _ (pos (to_int s)) placeholder
          (some nonce) made in
      (
        c,
        rw (hs, derived, encrypted, made)
            (ap (λ t. ok t)
              (verified_selection-valid gmp sha256 hash key base_hash verify c valid)),
        record {
          valid = valid;
          encrypts = encrypted ∙ ap some (sym same_cipher);
          keeps_hash = same_hash;
          keeps_nonce = same_nonce;
          keeps_id = same_id;
          for_description = valid_selection-id s d.object_id hs;
          keeps_placeholder = same_placeholder;
        },
      )
