-- ===== src/Elgamal/Homomorphic.antt =====
-- elgamal_add of elgamal.py adds the plaintexts, and the order of its arguments does not matter.
use native.Mathlib.Nat.{mod-mod}
use electionguard_python.Prelude.{
  ℕ, ◌+◌, ◌*◌, ◌%◌, ◌^◌, ◌≤◌, ◌<◌, ◌≡◌, sym, ap, subst, ◌∙◌, true, some, List, [], ◌∷◌, arith,
}
use electionguard_python.Prelude.Int.{pos}
use electionguard_python.Prelude.Result.{ok}
use electionguard_python.External.{Gmp, GmpLaws}
use electionguard_python.Modular.{mod-mul_cong, pow_add}
use electionguard_python.Group.Constants.{P, G}
use electionguard_python.Group.Residues.{IsResidue-G-pow}
use electionguard_python.Group.Elements.{is_in_bounds_q-mk, pow_p-pq, mult_p-pp}
use electionguard_python.Group.{ElementModQ, ElementModP, of_p, mk_p, is_in_bounds_q, mult_p}
use electionguard_python.Dlog.{Dlog}
use electionguard_python.Dlog.Laws.{IsValid, Distinct, discrete_log-power}
use electionguard_python.Elgamal.{
  ElGamalKeyPair, ElGamalCiphertext, add_from, elgamal_add, decrypt, elgamal_keypair_from_secret,
  elgamal_encrypt,
}
use electionguard_python.Elgamal.Decrypt.{
  ciphertext, elgamal_encrypt-mk, decrypt_known_product-ciphertext, elgamal_keypair_from_secret-mk,
  blinding_comm,
}

pub pow_sum : (n i j p : ℕ) → (n ^ i % p * (n ^ j % p)) % p ≡ n ^ (i + j) % p
pow_sum n i j p =
    mod-mul_cong _ _ _ _ p (mod-mod (n ^ i) p) (mod-mod (n ^ j) p)
    ∙ ap (λ t. t % p) (sym (pow_add n i j))

regroup_data : (a b c d p : ℕ) → (a * b % p * (c * d % p)) % p ≡ (a * c % p * (b * d % p)) % p
regroup_data a b c d p =
    mod-mul_cong _ _ _ _ p (mod-mod (a * b) p) (mod-mod (c * d) p)
    ∙ ap (λ t. t % p) (omega arith)
    ∙ sym (mod-mul_cong _ _ _ _ p (mod-mod (a * c) p) (mod-mod (b * d) p))

-- One round of the loop of elgamal_add.
abbrev pub add_pair : ElGamalCiphertext → ElGamalCiphertext → ElGamalCiphertext
add_pair a b = record {
  pad = mult_p (of_p a.pad ∷ of_p b.pad ∷ []);
  encrypted_data = mult_p (of_p a.encrypted_data ∷ of_p b.encrypted_data ∷ []);
}

pub add_pair-ciphertext :
    (m r m' r' k : ℕ)
    → add_pair (ciphertext m r k) (ciphertext m' r' k) ≡ ciphertext (m + m') (r + r') k
add_pair-ciphertext m r m' r' k = λ i. record { pad = pads i; encrypted_data = datas i }
  where
    pads :
        mult_p (of_p (mk_p (G ^ r % P)) ∷ of_p (mk_p (G ^ r' % P)) ∷ []) ≡ mk_p (G ^ (r + r') % P)
    pads = mult_p-pp (G ^ r % P) (G ^ r' % P) ∙ ap mk_p (pow_sum G r r' P)

    datas :
        mult_p (
          of_p (mk_p ((G ^ m % P * (k ^ r % P)) % P))
          ∷ of_p (mk_p ((G ^ m' % P * (k ^ r' % P)) % P))
          ∷ [])
        ≡ mk_p ((G ^ (m + m') % P * (k ^ (r + r') % P)) % P)
    datas =
        mult_p-pp ((G ^ m % P * (k ^ r % P)) % P) ((G ^ m' % P * (k ^ r' % P)) % P)
        ∙ ap mk_p (
            regroup_data (G ^ m % P) (k ^ r % P) (G ^ m' % P) (k ^ r' % P) P
            ∙ ap (λ t. (t * ((k ^ r % P) * (k ^ r' % P) % P)) % P) (pow_sum G m m' P)
            ∙ ap (λ t. (G ^ (m + m') % P * t) % P) (pow_sum k r r' P))

-- A vote and the nonce that it is encrypted with.
abbrev pub Vote : Type 0
Vote = ℕ × ElementModQ

unfoldable pub total : List Vote → ℕ
total [] = 0
total ((m, _) ∷ votes) = m + total votes

module _ (gmp : Gmp) (public_key : ElementModP) where
  -- The ciphertexts are the encryptions of the votes, one for each, with nonces in bounds.
  abbrev pub Encrypts : List Vote → List ElGamalCiphertext → Type 0
  Encrypts [] [] = Unit
  Encrypts [] (c ∷ cs) = ⊥
  Encrypts (v ∷ votes) [] = ⊥
  Encrypts ((m, nonce) ∷ votes) (c ∷ cs) =
      (elgamal_encrypt gmp (pos m) nonce public_key ≡ some c)
      × (is_in_bounds_q nonce ≡ true)
      × Encrypts votes cs

module _ {gmp : Gmp} (laws : GmpLaws gmp) where
  encrypts-head :
      (m k : ℕ) (nonce : ElementModQ) (c : ElGamalCiphertext)
      → elgamal_encrypt gmp (pos m) nonce (mk_p k) ≡ some c
      → is_in_bounds_q nonce ≡ true
      → (r : ℕ) × (c ≡ ciphertext m r k)
  encrypts-head m k nonce c h b =
      let (r, e, _) = is_in_bounds_q-mk nonce b in (r, elgamal_encrypt-mk laws m r k (rw e at h))

  add_from-ciphertext :
      (m r k : ℕ) (votes : List Vote) (cs : List ElGamalCiphertext)
      → Encrypts gmp (mk_p k) votes cs
      → (s : ℕ) × (add_from (ciphertext m r k) cs ≡ ciphertext (m + total votes) s k)
  unfolding add_from total
  add_from-ciphertext m r k [] [] h = (r, ap (λ t. ciphertext t r k) (omega arith))
  add_from-ciphertext m r k [] (c ∷ cs) h = absurd h
  add_from-ciphertext m r k (v ∷ votes) [] h = absurd h
  add_from-ciphertext m r k ((m', nonce) ∷ votes) (c ∷ cs) h =
      let (r', e) = encrypts-head m' k nonce c h.0 h.1 in
      let (s, sum) = add_from-ciphertext (m + m') (r + r') k votes cs h.2 in
      (
        s,
        ap (λ x. add_from x cs)
              (ap (add_pair (ciphertext m r k)) e ∙ add_pair-ciphertext m r m' r' k)
            ∙ sum
            ∙ ap (λ t. ciphertext t s k) (omega arith),
      )

  pub elgamal_add-ciphertext :
      (k : ℕ) (v : Vote) (votes : List Vote) (cs : List ElGamalCiphertext)
      → Encrypts gmp (mk_p k) (v ∷ votes) cs
      → (s : ℕ) × (elgamal_add cs ≡ ok (ciphertext (total (v ∷ votes)) s k))
  unfolding elgamal_add total
  elgamal_add-ciphertext k v votes [] h = absurd h
  elgamal_add-ciphertext k (m, nonce) votes (c ∷ cs) h =
      let (r, e) = encrypts-head m k nonce c h.0 h.1 in
      let (s, sum) = add_from-ciphertext m r k votes cs h.2 in
      (s, ap ok (ap (λ x. add_from x cs) e ∙ sum))

  -- The sum of encryptions of one or more votes under one key pair, in any valid state of the
  -- logarithm's cache, decrypts to the sum of the votes, where that sum and the largest exponent so
  -- far are below a bound up to which the powers of G are distinct and the fuel is enough for it.
  -- In particular elgamal_add does not raise.
  pub decrypt-elgamal_add :
      (bound fuel : ℕ) (secret : ElementModQ) (v : Vote) (votes : List Vote)
      (cs : List ElGamalCiphertext) (s : Dlog) {pair : ElGamalKeyPair}
      → is_in_bounds_q secret ≡ true
      → elgamal_keypair_from_secret gmp secret ≡ some pair
      → Encrypts gmp pair.public_key (v ∷ votes) cs
      → IsValid s
      → Distinct bound
      → s.max_exp < bound
      → total (v ∷ votes) < bound
      → total (v ∷ votes) ≤ s.max_exp + fuel
      → (c : ElGamalCiphertext) × (elgamal_add cs ≡ ok c)
        × ((decrypt gmp fuel c secret s).0 ≡ ok (total (v ∷ votes)))
  unfolding decrypt
  decrypt-elgamal_add bound fuel secret v votes cs s {pair} hx hp he valid d hs hm hf =
      let (x, secret_x, _) = is_in_bounds_q-mk secret hx in
      let public : pair.public_key ≡ mk_p (G ^ x % P) =
        (elgamal_keypair_from_secret-mk laws x (rw secret_x at hp)).1 in
      let (r, sum) =
        elgamal_add-ciphertext (G ^ x % P) v votes cs
          (subst (λ key. Encrypts gmp key (v ∷ votes) cs) public he) in
      (
        ciphertext (total (v ∷ votes)) r (G ^ x % P),
        sum,
        rw
            (
              secret_x,
              pow_p-pq laws (G ^ r % P) x,
              blinding_comm r x,
              decrypt_known_product-ciphertext laws fuel (total (v ∷ votes)) r (G ^ x % P) s
                  (IsResidue-G-pow x),
            )
            (discrete_log-power bound fuel (total (v ∷ votes)) s valid d hs hm hf).0,
      )
