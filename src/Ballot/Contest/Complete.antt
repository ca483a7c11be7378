-- ===== src/Ballot/Contest/Complete.antt =====
-- The verifier of an encrypted contest accepts what make_ciphertext_ballot_contest makes (ballot.py).
use electionguard_python.Prelude.{
  ℕ, ◌+◌, ◌*◌, ◌%◌, ◌^◌, ◌<◌, ◌≡◌, refl, sym, ap, ◌∙◌, true, Option, none, some, List, [], ◌∷◌, map,
  arith,
}
use electionguard_python.Prelude.Int.{pos, ◌+ℤ◌, ◌%ℤ◌}
use electionguard_python.Prelude.Result.{ok}
use electionguard_python.Prelude.Digits.{Text}
use electionguard_python.External.{Gmp, GmpLaws, Sha256}
use native.Mathlib.Nat.{mod-mod, mod-add-mod}
use electionguard_python.Group.Constants.{P, Q, G}
use electionguard_python.Group.Residues.{
  IsResidue, IsResidue-G, is_valid_residue-mk, residue-pow_cong,
}
use electionguard_python.Group.{
  ElementModQ, ElementModP, of_q, mk_q, mk_p, add_q, add_q_from, is_in_bounds_q, is_valid_residue,
}
use electionguard_python.Group.Elements.{eq_q_self, is_in_bounds_q-mk}
use electionguard_python.Elgamal.{add_from, elgamal_add, elgamal_encrypt}
use electionguard_python.Elgamal.Decrypt.{ciphertext, elgamal_encrypt-mk}
use electionguard_python.Elgamal.Homomorphic.{Vote, total, add_pair, add_pair-ciphertext}
use electionguard_python.ChaumPedersen.Constant.{constant_complete}
use electionguard_python.Ballot.Selection.{CiphertextBallotSelection}
use electionguard_python.Ballot.Contest.{
  CiphertextBallotContest, accumulate, elgamal_accumulate, selection_nonces, aggregate_of,
  contest_proof, crypto_hash_with, is_valid_encryption, make_ciphertext_ballot_contest,
}

-- The nonce counts modulo Q.
ciphertext-nonce_mod : (m r k : ℕ) → IsResidue k → ciphertext m r k ≡ ciphertext m (r % Q) k
ciphertext-nonce_mod m r k h = λ i. record {
  pad = mk_p (residue-pow_cong G r (r % Q) IsResidue-G (sym (mod-mod r Q)) i);
  encrypted_data = mk_p ((G ^ m % P * residue-pow_cong k r (r % Q) h (sym (mod-mod r Q)) i) % P);
}

module _ (gmp : Gmp) (key : ElementModP) where
  -- The selections hold the encryptions of the votes, one for each, together with their nonces, which
  -- are in bounds.
  abbrev pub Encrypts : List Vote → List CiphertextBallotSelection → Type 0
  Encrypts [] [] = Unit
  Encrypts [] (s ∷ ss) = ⊥
  Encrypts (v ∷ votes) [] = ⊥
  Encrypts ((m, nonce) ∷ votes) (s ∷ ss) =
      (elgamal_encrypt gmp (pos m) nonce key ≡ some s.ciphertext)
      × (s.nonce ≡ some nonce)
      × (is_in_bounds_q nonce ≡ true)
      × Encrypts votes ss

module _ {gmp : Gmp} (laws : GmpLaws gmp) where
  -- What the selections of encrypted votes add up to, and their nonces.
  record Sums (k : ℕ) (votes : List Vote) (selections : List CiphertextBallotSelection)
      : Type 0 where
    nonces_sum : ℕ
    nonces : List ElementModQ
    collected : selection_nonces selections ≡ some nonces
    added :
        (m r : ℕ)
        → add_from (ciphertext m r k) (map (λ s. s.ciphertext) selections)
          ≡ ciphertext (m + total votes) (r + nonces_sum) k
    aggregated : (t : ℕ) → add_q_from (pos (t % Q)) (map of_q nonces) ≡ pos ((t + nonces_sum) % Q)

  collected-cons :
      (s : CiphertextBallotSelection) (ss : List CiphertextBallotSelection) (n : ElementModQ)
      (ns : List ElementModQ)
      → s.nonce ≡ some n
      → selection_nonces ss ≡ some ns
      → selection_nonces (s ∷ ss) ≡ some (n ∷ ns)
  unfolding selection_nonces
  collected-cons s ss n ns h k = rw (h, k)

  sums :
      (k : ℕ) (votes : List Vote) (selections : List CiphertextBallotSelection)
      → Encrypts gmp (mk_p k) votes selections
      → Sums k votes selections
  unfolding selection_nonces add_from add_q_from total
  sums k [] [] h = record {
    nonces_sum = 0;
    nonces = [];
    collected = refl;
    added = λ m r i. ciphertext (zero_right m i) (zero_right r i) k;
    aggregated = λ t. ap (λ u. pos (u % Q)) (zero_right t);
  }
    where
      zero_right : (n : ℕ) → n ≡ n + 0
      zero_right n = omega arith
  sums k [] (s ∷ ss) h = absurd h
  sums k (v ∷ votes) [] h = absurd h
  sums k ((m', nonce) ∷ votes) (s ∷ ss) h =
      let (r', e, _) = is_in_bounds_q-mk nonce h.2 in
      let c : s.ciphertext ≡ ciphertext m' r' k = elgamal_encrypt-mk laws m' r' k (rw e at h.0) in
      let rest = sums k votes ss h.3 in
      record {
        nonces_sum = r' + rest.nonces_sum;
        nonces = nonce ∷ rest.nonces;
        collected = collected-cons s ss nonce rest.nonces h.1 rest.collected;
        added = λ m r.
            ap (λ x. add_from x (map (λ s. s.ciphertext) ss))
              (ap (add_pair (ciphertext m r k)) c ∙ add_pair-ciphertext m r m' r' k)
            ∙ rest.added (m + m') (r + r')
            ∙ (λ i. ciphertext (assoc m m' (total votes) i) (assoc r r' rest.nonces_sum i) k);
        aggregated = λ t.
            ap (λ x. add_q_from ((pos (t % Q) +ℤ x.elem) %ℤ Q) (map of_q rest.nonces)) e
            ∙ ap (λ u. add_q_from (pos u) (map of_q rest.nonces)) (mod-add-mod t Q r')
            ∙ rest.aggregated (t + r')
            ∙ ap (λ u. pos (u % Q)) (assoc t r' rest.nonces_sum);
      }
    where
      assoc : (a b c : ℕ) → a + b + c ≡ a + (b + c)
      assoc a b c = omega arith

  -- The sum of the selections, and the sum of their nonces: an encryption of the sum of the votes.
  contest_sums :
      (k : ℕ) (v : Vote) (votes : List Vote) (selections : List CiphertextBallotSelection)
      → IsResidue k
      → Encrypts gmp (mk_p k) (v ∷ votes) selections
      → (r : ℕ) × (aggregate_of selections ≡ some (mk_q r))
        × (accumulate selections ≡ ok (ciphertext (total (v ∷ votes)) r k))
  unfolding aggregate_of accumulate elgamal_add add_q total add_q_from
  contest_sums k v votes [] rk h = absurd h
  contest_sums k (m, nonce) votes (s ∷ ss) rk h =
      let (r, e, below) = is_in_bounds_q-mk nonce h.2 in
      let c : s.ciphertext ≡ ciphertext m r k = elgamal_encrypt-mk laws m r k (rw e at h.0) in
      let rest = sums k votes ss h.3 in
      let zero_left : 0 + r ≡ r = omega arith in
      (
        (r + rest.nonces_sum) % Q,
        rw (collected-cons s ss nonce rest.nonces h.1 rest.collected, aggregate_of, e)
            (ap (λ t. some (record { elem = add_q_from (pos (t % Q)) (map of_q rest.nonces) }))
                zero_left
              ∙ ap (λ i. some (record { elem = i })) (rest.aggregated r)),
        ap ok (
            ap (λ x. add_from x (map (λ s. s.ciphertext) ss)) c
            ∙ rest.added m r
            ∙ ciphertext-nonce_mod (m + total votes) (r + rest.nonces_sum) k rk),
      )

  module _ (sha256 : Sha256) where
    complete-mk :
        (object_id : Text) (description_hash base_hash proof_seed : ElementModQ) (k : ℕ) (v : Vote)
        (votes : List Vote) (selections : List CiphertextBallotSelection)
        (contest_nonce : Option ElementModQ)
        → IsResidue k
        → Encrypts gmp (mk_p k) (v ∷ votes) selections
        → total (v ∷ votes) < 1_000_000_000
        → (contest : CiphertextBallotContest) × (make_ciphertext_ballot_contest gmp sha256 object_id
              description_hash selections
              (mk_p k)
              base_hash
              proof_seed
              (pos (total (v ∷ votes)))
              none
              none
              contest_nonce
            ≡ ok contest)
          × (is_valid_encryption gmp sha256 contest description_hash (mk_p k) base_hash ≡ ok true)
    unfolding make_ciphertext_ballot_contest contest_proof is_valid_encryption elgamal_accumulate
        crypto_hash_with
    complete-mk object_id description_hash base_hash proof_seed k v votes selections contest_nonce
          rk h hm =
        let (r, aggregate, sum) = contest_sums k v votes selections rk h in
        let (proof, made, valid) =
          constant_complete laws sha256 (total (v ∷ votes)) r k proof_seed base_hash hm rk in
        rw (aggregate, sum, made) (_, refl, simp (eq_q_self, sum, valid))

    -- A contest of one or more selections that hold the encryptions of votes together with their
    -- nonces, under a public key that is a valid residue, made for the sum of the votes as the number
    -- elected, which is below 1,000,000,000, and with neither hash nor proof given, is made with a
    -- proof, and it is valid for the hash of its description, that key and that base hash.
    pub make_ciphertext_ballot_contest-is_valid_encryption :
        (object_id : Text) (description_hash base_hash proof_seed : ElementModQ) (key : ElementModP)
        (v : Vote) (votes : List Vote) (selections : List CiphertextBallotSelection)
        (contest_nonce : Option ElementModQ)
        → is_valid_residue gmp key ≡ true
        → Encrypts gmp key (v ∷ votes) selections
        → total (v ∷ votes) < 1_000_000_000
        → (contest : CiphertextBallotContest) × (make_ciphertext_ballot_contest gmp sha256 object_id
              description_hash selections key base_hash proof_seed
              (pos (total (v ∷ votes)))
              none
              none
              contest_nonce
            ≡ ok contest)
          × (is_valid_encryption gmp sha256 contest description_hash key base_hash ≡ ok true)
    make_ciphertext_ballot_contest-is_valid_encryption object_id description_hash base_hash
          proof_seed key v votes selections contest_nonce hk h hm =
        let (k, key_k, rk) = is_valid_residue-mk laws key hk in
        rw key_k (
          complete-mk object_id description_hash base_hash proof_seed k v votes selections
            contest_nonce rk (rw key_k at h) hm)
