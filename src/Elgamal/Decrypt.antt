-- ===== src/Elgamal/Decrypt.antt =====
-- Decryption of what elgamal_encrypt made, by the secret key and by the nonce (elgamal.py).
use electionguard_python.Prelude.{
  ℕ, ◌+◌, ◌*◌, ◌%◌, ◌^◌, ◌≤◌, ◌<◌, ◌≡◌, sym, ap, ◌∙◌, true, some, arith,
}
use native.Mathlib.Nat.{mod-lt, mul_comm}
use electionguard_python.Prelude.Int.{pos}
use electionguard_python.Prelude.Result.{ok}
use electionguard_python.External.{Gmp, GmpLaws}
use electionguard_python.Modular.{mod-pow, pow_mul}
use electionguard_python.Group.Constants.{P, G}
use electionguard_python.Group.Residues.{zero-lt-P, IsResidue, IsResidue-G-pow, IsResidue-pow}
use electionguard_python.Group.Elements.{is_in_bounds_q-mk, pow_p-pq, g_pow_p-q, mult_p-pp}
use electionguard_python.Group.Inverse.{mult_inv_p-mk, undo_product}
use electionguard_python.Group.{ElementModQ, mk_q, mk_p, is_in_bounds_q, int_to_q}
use electionguard_python.Dlog.{Dlog, discrete_log}
use electionguard_python.Dlog.Laws.{IsValid, Distinct, power, discrete_log-power}
use electionguard_python.Elgamal.{
  ElGamalKeyPair, ElGamalCiphertext, decrypt_known_product, decrypt, decrypt_known_nonce,
  elgamal_keypair_from_secret, elgamal_encrypt,
}

-- An encryption under natural numbers: of m, with the nonce r and the public key k.
abbrev pub ciphertext : ℕ → ℕ → ℕ → ElGamalCiphertext
ciphertext m r k = record {
  pad = mk_p (G ^ r % P);
  encrypted_data = mk_p ((G ^ m % P * (k ^ r % P)) % P);
}

-- The blinding factor from either side: the public key to the nonce, the pad to the secret key.
pub blinding_comm : (r x : ℕ) → (G ^ r % P) ^ x % P ≡ (G ^ x % P) ^ r % P
blinding_comm r x =
    mod-pow (G ^ r) x P
    ∙ ap (λ t. t % P) (sym (pow_mul G r x) ∙ ap (λ t. G ^ t) (mul_comm r x) ∙ pow_mul G x r)
    ∙ sym (mod-pow (G ^ x) r P)

module _ {gmp : Gmp} (laws : GmpLaws gmp) where
  -- What elgamal_encrypt returns is such a ciphertext.
  pub elgamal_encrypt-mk :
      (m r k : ℕ) {c : ElGamalCiphertext}
      → elgamal_encrypt gmp (pos m) (mk_q r) (mk_p k) ≡ some c
      → c ≡ ciphertext m r k
  unfolding elgamal_encrypt int_to_q
  elgamal_encrypt-mk m r k h = ground (
    arith,
    g_pow_p-q laws r,
    g_pow_p-q laws m,
    pow_p-pq laws k r,
    mult_p-pp (G ^ m % P) (k ^ r % P),
  )

  -- Decryption by the blinding factor k ^ r, for a residue k.
  pub decrypt_known_product-ciphertext :
      (fuel m r k : ℕ) (s : Dlog)
      → IsResidue k
      → decrypt_known_product gmp fuel (ciphertext m r k) (mk_p (k ^ r % P)) s
        ≡ discrete_log fuel (power m) s
  unfolding decrypt_known_product
  decrypt_known_product-ciphertext fuel m r k s h =
      let (y, found, below, inverse) = mult_inv_p-mk laws (k ^ r % P) (IsResidue-pow k r h) in
      rw (found, decrypt_known_product)
        (ap (λ x. discrete_log fuel x s)
          (mult_p-pp (G ^ m % P * (k ^ r % P) % P) y
            ∙ ap mk_p
                (undo_product (G ^ m % P) (k ^ r % P) y P inverse (mod-lt (G ^ m) zero-lt-P))))

  -- The public key of a key pair.
  pub elgamal_keypair_from_secret-mk :
      (x : ℕ) {pair : ElGamalKeyPair}
      → elgamal_keypair_from_secret gmp (mk_q x) ≡ some pair
      → (pair.secret_key ≡ mk_q x) × (pair.public_key ≡ mk_p (G ^ x % P))
  unfolding elgamal_keypair_from_secret
  elgamal_keypair_from_secret-mk x h = ground (arith, g_pow_p-q laws x)

  -- Both ways of decryption look for the logarithm of the power of G to the vote.
  pub decrypt-power :
      (fuel m : ℕ) (secret nonce : ElementModQ) (s : Dlog) {pair : ElGamalKeyPair}
      {c : ElGamalCiphertext}
      → is_in_bounds_q secret ≡ true
      → is_in_bounds_q nonce ≡ true
      → elgamal_keypair_from_secret gmp secret ≡ some pair
      → elgamal_encrypt gmp (pos m) nonce pair.public_key ≡ some c
      → (decrypt gmp fuel c secret s ≡ discrete_log fuel (power m) s)
        × (decrypt_known_nonce gmp fuel c pair.public_key nonce s ≡ discrete_log fuel (power m) s)
  unfolding decrypt decrypt_known_nonce
  decrypt-power fuel m secret nonce s {pair} {c} hx hr hp hc =
      let (x, secret_x, _) = is_in_bounds_q-mk secret hx in
      let (r, nonce_r, _) = is_in_bounds_q-mk nonce hr in
      let public : pair.public_key ≡ mk_p (G ^ x % P) =
        (elgamal_keypair_from_secret-mk x (rw secret_x at hp)).1 in
      let cipher : c ≡ ciphertext m r (G ^ x % P) =
        elgamal_encrypt-mk m r (G ^ x % P) (rw (nonce_r, public) at hc) in
      let opened = decrypt_known_product-ciphertext fuel m r (G ^ x % P) s (IsResidue-G-pow x) in
      rw
        (
          secret_x,
          nonce_r,
          public,
          cipher,
          pow_p-pq laws (G ^ r % P) x,
          blinding_comm r x,
          pow_p-pq laws (G ^ x % P) r,
        )
        (opened, opened)

  -- For any key pair and any nonce in bounds, what elgamal_encrypt makes of m is decrypted to m, by
  -- the secret key and by the nonce: from any valid state of the logarithm's cache, with fuel for
  -- the rounds up to m, where m and the largest exponent so far are below a bound up to which the
  -- powers of G are distinct.
  pub decrypt-elgamal_encrypt :
      (bound fuel m : ℕ) (secret nonce : ElementModQ) (s : Dlog) {pair : ElGamalKeyPair}
      {c : ElGamalCiphertext}
      → is_in_bounds_q secret ≡ true
      → is_in_bounds_q nonce ≡ true
      → elgamal_keypair_from_secret gmp secret ≡ some pair
      → elgamal_encrypt gmp (pos m) nonce pair.public_key ≡ some c
      → IsValid s
      → Distinct bound
      → s.max_exp < bound
      → m < bound
      → m ≤ s.max_exp + fuel
      → ((decrypt gmp fuel c secret s).0 ≡ ok m)
        × ((decrypt_known_nonce gmp fuel c pair.public_key nonce s).0 ≡ ok m)
  decrypt-elgamal_encrypt bound fuel m secret nonce s {pair} {c} hx hr hp hc v d hs hm hf =
      let log = discrete_log-power bound fuel m s v d hs hm hf in
      let opened = decrypt-power fuel m secret nonce s hx hr hp hc in
      (ap (λ t. t.0) opened.0 ∙ log.0, ap (λ t. t.0) opened.1 ∙ log.0)
