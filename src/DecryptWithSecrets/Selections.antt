-- ===== src/DecryptWithSecrets/Selections.antt =====
-- A selection that encrypt_selection made is decrypted to the vote, by the secret key and by the nonce
-- (decrypt_with_secrets.py).
use electionguard_python.Prelude.{
  ℕ, zero, suc, ◌≤◌, ◌<◌, ◌≡◌, refl, Bool, true, false, Option, none, some, arith, Bool-cases, inl,
  inr,
}
use electionguard_python.Prelude.Int.{ℤ}
use electionguard_python.Prelude.Result.{Result, ok}
use electionguard_python.External.{Gmp, GmpLaws, Sha256}
use electionguard_python.Group.{ElementModQ, is_in_bounds_q}
use electionguard_python.Group.Elements.{eq_q_self}
use electionguard_python.Hash.{get_item}
use electionguard_python.Dlog.{Dlog, discrete_log}
use electionguard_python.Dlog.Laws.{IsValid, Distinct, power, discrete_log-power}
use electionguard_python.Elgamal.{
  ElGamalKeyPair, elgamal_keypair_from_secret, decrypt, decrypt_known_nonce,
}
use electionguard_python.Elgamal.Decrypt.{decrypt-power}
use electionguard_python.Election.{SelectionDescription, selection_hash}
use electionguard_python.Ballot.Plaintext.{PlaintextBallotSelection, to_int}
use electionguard_python.Ballot.Selection.{CiphertextBallotSelection}
use electionguard_python.Encrypt.Selections.{bool_text, nonces_for}
use electionguard_python.Encrypt.Valid.{HasNonce, Encrypted, get_item-is_in_bounds, to_int-le-one}
use electionguard_python.DecryptWithSecrets.Actions.{Action, called, plaintext_of, if_valid}
use electionguard_python.DecryptWithSecrets.Secret.{decrypt_selection_with_secret}
use electionguard_python.DecryptWithSecrets.Nonce.{
  nonce_of, checked_nonce, decrypt_selection_with_nonce,
}

-- Whether a vote is one.
unfoldable pub is_one : ℕ → Bool
is_one zero = false
is_one (suc n) = true

-- What a selection is decrypted to: with its vote in the words of Python's bool.
abbrev pub plaintext : Bool → PlaintextBallotSelection → PlaintextBallotSelection
plaintext placeholder s = record {
  object_id = s.object_id;
  vote = bool_text (is_one (to_int s));
  is_placeholder_selection = placeholder;
  extended_data = none;
}

-- A valid cache whose largest exponent is below a bound.
pub record IsReady (bound : ℕ) (s : Dlog) : Type 0 where
  pub valid : IsValid s
  pub below : s.max_exp < bound

-- An action that returns a value from every such cache, and leaves such a cache.
abbrev pub Returns : ℕ → {A : Type 0} → Action A → A → Type 0
Returns bound action a =
    (s : Dlog) → IsReady bound s → (s' : Dlog) × (action s ≡ (ok (some a), s')) × IsReady bound s'

plaintext_of-plaintext :
    (c : CiphertextBallotSelection) (s : PlaintextBallotSelection) (placeholder : Bool)
    → c.object_id ≡ s.object_id
    → c.is_placeholder_selection ≡ placeholder
    → plaintext_of c (to_int s) ≡ plaintext placeholder s
unfolding plaintext_of is_one
plaintext_of-plaintext c s placeholder h k = ground (arith, h, k)

called-Returns :
    (bound fuel m : ℕ) (search : Dlog → Result ℕ × Dlog)
    → Distinct bound
    → 1 < bound
    → 1 ≤ fuel
    → m ≤ 1
    → ((s : Dlog) → search s ≡ discrete_log fuel (power m) s)
    → Returns bound (called search) m
called-Returns bound fuel m search distinct hb hf hm same s ready =
    let (found, valid, below) =
      discrete_log-power bound fuel m s ready.valid distinct ready.below (omega arith)
        (omega arith) in
    (
      (discrete_log fuel (power m) s).1,
      rw (same s, found) refl,
      record { valid = valid; below = ground (arith, below, ready.below) },
    )

pub nonce_of-derived :
    (sha256 : Sha256) (kept : Option ElementModQ) (hash seed : ElementModQ) (i : ℤ)
    {n : ElementModQ}
    → get_item sha256 (nonces_for sha256 hash seed) i ≡ ok n
    → nonce_of sha256 kept hash i (some seed) ≡ ok (some n)
unfolding nonce_of
nonce_of-derived sha256 kept hash seed i h = rw (h, nonce_of)

pub checked_kept :
    (nonce : ElementModQ) (kept : Option ElementModQ)
    → kept ≡ some nonce
    → checked_nonce kept (some nonce) ≡ some nonce
unfolding checked_nonce
checked_kept nonce kept h = rw (h, eq_q_self nonce)

module _ {gmp : Gmp} (laws : GmpLaws gmp) (sha256 : Sha256) {pair : ElGamalKeyPair}
    (secret base_hash : ElementModQ) (bound fuel : ℕ) (distinct : Distinct bound) (hb : 1 < bound)
    (hf : 1 ≤ fuel) (hx : is_in_bounds_q secret ≡ true)
    (hp : elgamal_keypair_from_secret gmp secret ≡ some pair) where
  pub decrypt_selection_with_secret-Returns :
      (seed : ElementModQ) (d : SelectionDescription) (n : HasNonce sha256 seed d)
      (s : PlaintextBallotSelection) (placeholder suppress : Bool) (c : CiphertextBallotSelection)
      → Encrypted gmp sha256 d pair.public_key base_hash n.0 s placeholder c
      → Returns bound
          (decrypt_selection_with_secret gmp sha256 fuel c d pair.public_key secret base_hash
            suppress)
          (plaintext placeholder s)
  unfolding decrypt_selection_with_secret if_valid
  decrypt_selection_with_secret-Returns seed d (nonce, derived, _) s placeholder suppress c e st
        ready =
      let bounds = get_item-is_in_bounds sha256 _ d.sequence_order derived in
      let (st', opened, ready') =
        called-Returns bound fuel (to_int s) (decrypt gmp fuel c.ciphertext secret) distinct hb hf
          (to_int-le-one s)
          (λ t. (decrypt-power laws fuel (to_int s) secret nonce t hx bounds hp e.encrypts).0) st
          ready in
      let same = plaintext_of-plaintext c s placeholder e.keeps_id e.keeps_placeholder in
      (
        st',
        elim (Bool-cases suppress) [
          | inl v ↦ rw (v, if_valid, opened, same) refl
          | inr v ↦ rw (v, e.valid, if_valid, opened, same) refl
        ],
        ready',
      )

  pub decrypt_selection_with_nonce-Returns :
      (seed : ElementModQ) (d : SelectionDescription) (n : HasNonce sha256 seed d)
      (s : PlaintextBallotSelection) (placeholder suppress : Bool) (c : CiphertextBallotSelection)
      → Encrypted gmp sha256 d pair.public_key base_hash n.0 s placeholder c
      → Returns bound
          (decrypt_selection_with_nonce gmp sha256 fuel c d pair.public_key base_hash
            (some seed)
            suppress)
          (plaintext placeholder s)
  unfolding decrypt_selection_with_nonce if_valid
  decrypt_selection_with_nonce-Returns seed d (nonce, derived, _) s placeholder suppress c e st
        ready =
      let bounds = get_item-is_in_bounds sha256 _ d.sequence_order derived in
      let from_seed =
        nonce_of-derived sha256 c.nonce (selection_hash sha256 d) seed d.sequence_order derived in
      let kept = checked_kept nonce c.nonce e.keeps_nonce in
      let (st', opened, ready') =
        called-Returns bound fuel (to_int s)
          (decrypt_known_nonce gmp fuel c.ciphertext pair.public_key nonce) distinct hb hf
          (to_int-le-one s)
          (λ t. (decrypt-power laws fuel (to_int s) secret nonce t hx bounds hp e.encrypts).1) st
          ready in
      let same = plaintext_of-plaintext c s placeholder e.keeps_id e.keeps_placeholder in
      (
        st',
        elim (Bool-cases suppress) [
          | inl v ↦ rw (v, if_valid, from_seed, kept, opened, same) refl
          | inr v ↦ rw (v, e.valid, if_valid, from_seed, kept, opened, same) refl
        ],
        ready',
      )
