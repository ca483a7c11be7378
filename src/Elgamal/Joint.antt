-- ===== src/Elgamal/Joint.antt =====
-- A joint public key of elgamal.py, and decryption by the partial decryptions of all its guardians.
use electionguard_python.Prelude.{
  ℕ, ◌+◌, ◌*◌, ◌%◌, ◌^◌, ◌≤◌, ◌<◌, ◌≡◌, refl, sym, ap, ◌∙◌, true, some, List, [], ◌∷◌, map, arith,
}
use native.Mathlib.Nat.{pow-zero}
use electionguard_python.Prelude.Int.{pos, to_ℕ}
use electionguard_python.Prelude.Result.{ok}
use electionguard_python.External.{Gmp, GmpLaws}
use electionguard_python.Modular.{mod-mul_left, mod-mul_right, pow_add}
use electionguard_python.Group.Constants.{P, G}
use electionguard_python.Group.Residues.{one-mod-P, IsResidue-G-pow}
use electionguard_python.Group.Elements.{is_in_bounds_q-mk, pow_p-pq, g_pow_p-q}
use electionguard_python.Group.{
  ElementModPOrQorInt, ElementModQ, of_p, of_q, mk_p, is_in_bounds_q, mult_p, mult_from, g_pow_p,
}
use electionguard_python.Dlog.{Dlog}
use electionguard_python.Dlog.Laws.{IsValid, Distinct, discrete_log-power}
use electionguard_python.Elgamal.{
  ElGamalKeyPair, ElGamalCiphertext, decrypt_known_product, partial_decrypt, elgamal_encrypt,
  elgamal_combine_public_keys,
}
use electionguard_python.Elgamal.Decrypt.{
  blinding_comm, elgamal_encrypt-mk, decrypt_known_product-ciphertext,
}

sum : List ℕ → ℕ
sum [] = 0
sum (x ∷ xs) = x + sum xs

abbrev powers : ℕ → List ℕ → List ElementModPOrQorInt
powers b = map (λ x. of_p (mk_p (b ^ x % P)))

abbrev secrets : List ElGamalKeyPair → List ℕ
secrets = map (λ pair. to_ℕ pair.secret_key.elem)

power-step : (b e x : ℕ) → (b ^ e % P * (b ^ x % P)) % P ≡ b ^ (e + x) % P
power-step b e x =
    mod-mul_right (b ^ e % P) (b ^ x) P
    ∙ mod-mul_left (b ^ e) (b ^ x) P
    ∙ ap (λ t. t % P) (sym (pow_add b e x))

mult_from-powers :
    (b e : ℕ) (xs : List ℕ)
    → mult_from P (pos (b ^ e % P)) (powers b xs) ≡ pos (b ^ (e + sum xs) % P)
unfolding mult_from sum
mult_from-powers b e [] = let same : e + 0 ≡ e = omega arith in rw same refl
mult_from-powers b e (x ∷ xs) =
    let regroup : e + x + sum xs ≡ e + (x + sum xs) = omega arith in
    ap (λ t. mult_from P (pos t) (powers b xs)) (power-step b e x)
    ∙ mult_from-powers b (e + x) xs
    ∙ ap (λ t. pos (b ^ t % P)) regroup

-- The product of powers of one base is the power to the sum.
mult_p-powers : (b : ℕ) (xs : List ℕ) → mult_p (powers b xs) ≡ mk_p (b ^ sum xs % P)
unfolding mult_p
mult_p-powers b xs =
    ap (λ i. record { elem = i })
      (ap (λ t. mult_from P (pos t) (powers b xs)) (sym one)
        ∙ mult_from-powers b 0 xs
        ∙ ap (λ t. pos (b ^ t % P)) zero_more)
  where
    zero_more : 0 + sum xs ≡ sum xs
    zero_more = omega arith

    one : b ^ 0 % P ≡ 1
    one = rw (pow-zero b) one-mod-P

-- Each secret key is in bounds, and its public key is the power of the generator to it.
abbrev pub AreKeyPairs : Gmp → List ElGamalKeyPair → Type 0
AreKeyPairs gmp [] = Unit {0}
AreKeyPairs gmp (pair ∷ pairs) =
    (is_in_bounds_q pair.secret_key ≡ true)
    × (pair.public_key ≡ g_pow_p gmp (of_q pair.secret_key))
    × AreKeyPairs gmp pairs

module _ {gmp : Gmp} (laws : GmpLaws gmp) where
  public_keys-powers :
      (pairs : List ElGamalKeyPair)
      → AreKeyPairs gmp pairs
      → map of_p (map (λ pair. pair.public_key) pairs) ≡ powers G (secrets pairs)
  public_keys-powers [] h = refl
  public_keys-powers (pair ∷ pairs) (bounded, public, h) =
      let (x, secret_x, _) = is_in_bounds_q-mk pair.secret_key bounded in
      rw (public, secret_x, g_pow_p-q laws x, public_keys-powers pairs h) refl

  -- The partial decryptions of a ciphertext under every secret key.
  abbrev pub shares : ElGamalCiphertext → List ElGamalKeyPair → List ElementModPOrQorInt
  shares c = map (λ pair. of_p (partial_decrypt gmp c pair.secret_key))

  shares-powers :
      (c : ElGamalCiphertext) (a : ℕ) (pairs : List ElGamalKeyPair)
      → c.pad ≡ mk_p a
      → AreKeyPairs gmp pairs
      → shares c pairs ≡ powers a (secrets pairs)
  unfolding partial_decrypt
  shares-powers c a [] pad_a h = refl
  shares-powers c a (pair ∷ pairs) pad_a (bounded, public, h) =
      let (x, secret_x, _) = is_in_bounds_q-mk pair.secret_key bounded in
      rw (pad_a, secret_x, pow_p-pq laws a x, shares-powers c a pairs pad_a h) refl

  -- What elgamal_encrypt makes of m for the joint public key of any number of key pairs is decrypted
  -- to m by the product of the partial decryptions under all their secret keys: for any nonce in
  -- bounds, from any valid state of the logarithm's cache, with fuel for the rounds up to m, where m
  -- and the largest exponent so far are below a bound up to which the powers of G are distinct.
  pub decrypt_known_product-shares :
      (bound fuel m : ℕ) (pairs : List ElGamalKeyPair) (nonce : ElementModQ) (s : Dlog)
      {c : ElGamalCiphertext}
      → AreKeyPairs gmp pairs
      → is_in_bounds_q nonce ≡ true
      → elgamal_encrypt gmp
          (pos m)
          nonce
          (elgamal_combine_public_keys (map (λ pair. pair.public_key) pairs))
        ≡ some c
      → IsValid s
      → Distinct bound
      → s.max_exp < bound
      → m < bound
      → m ≤ s.max_exp + fuel
      → (decrypt_known_product gmp fuel c (mult_p (shares c pairs)) s).0 ≡ ok m
  unfolding elgamal_combine_public_keys
  decrypt_known_product-shares bound fuel m pairs nonce s {c} h hr hc v d hs hm hf =
      let (r, nonce_r, _) = is_in_bounds_q-mk nonce hr in
      let x = sum (secrets pairs) in
      let joint : elgamal_combine_public_keys (map (λ pair. pair.public_key) pairs)
          ≡ mk_p (G ^ x % P) =
        ap mult_p (public_keys-powers pairs h) ∙ mult_p-powers G (secrets pairs) in
      let cipher = elgamal_encrypt-mk laws m r (G ^ x % P) (rw (nonce_r, joint) at hc) in
      let product : mult_p (shares c pairs) ≡ mk_p ((G ^ x % P) ^ r % P) =
        ap mult_p (shares-powers c (G ^ r % P) pairs (ap (λ t. t.pad) cipher) h)
        ∙ mult_p-powers (G ^ r % P) (secrets pairs)
        ∙ ap mk_p (blinding_comm r x) in
      ap (λ t. (decrypt_known_product gmp fuel c t s).0) product
      ∙ ap (λ t. (decrypt_known_product gmp fuel t (mk_p ((G ^ x % P) ^ r % P)) s).0) cipher
      ∙ ap (λ t. t.0)
          (decrypt_known_product-ciphertext laws fuel m r (G ^ x % P) s (IsResidue-G-pow x))
      ∙ (discrete_log-power bound fuel m s v d hs hm hf).0
