-- ===== src/Elgamal.antt =====
-- elgamal.py: exponential ElGamal, with the plaintext in the exponent.
pub mod Decrypt
pub mod Homomorphic
pub mod Joint
use electionguard_python.Prelude.{
  ℕ, zero, suc, ◌<◌, ◌≡◌, Bool, true, false, Option, none, some, List, [], ◌∷◌, map, if◌then◌else◌,
}
use electionguard_python.Prelude.Int.{ℤ, pos, negsuc}
use electionguard_python.Prelude.Result.{
  Result, ok, raise, assertion_error, ◌>>=◌, get_optional, flatmap_optional,
}
use electionguard_python.External.{Gmp, Sha256}
use electionguard_python.Group.{
  ElementModQ, ElementModP, of_p, of_q, mk_q, zero_mod_q, eq_q, int_to_q, g_pow_p, pow_p, mult_p,
  mult_inv_p, rand_range_q,
}
use electionguard_python.Hash.{elem_p, end, item, hash_elems}
use electionguard_python.Dlog.{Dlog, discrete_log}

pub record ElGamalKeyPair : Type 0 where
  pub secret_key : ElementModQ
  pub public_key : ElementModP

-- The source's field `data` is `encrypted_data` here.
pub record ElGamalCiphertext : Type 0 where
  pub pad : ElementModP
  pub encrypted_data : ElementModP

unfoldable pub crypto_hash : Sha256 → ElGamalCiphertext → ElementModQ
crypto_hash sha256 c = hash_elems sha256 (item (elem_p c.pad) (item (elem_p c.encrypted_data) end))

-- elgamal_add(*ciphertexts): the loop, from the first.
unfoldable pub add_from : ElGamalCiphertext → List ElGamalCiphertext → ElGamalCiphertext
add_from result [] = result
add_from result (c ∷ ciphertexts) =
    add_from
      (record {
        pad = mult_p (of_p result.pad ∷ of_p c.pad ∷ []);
        encrypted_data = mult_p (of_p result.encrypted_data ∷ of_p c.encrypted_data ∷ []);
      })
      ciphertexts

unfoldable pub elgamal_add : List ElGamalCiphertext → Result ElGamalCiphertext
unfolding add_from
elgamal_add [] = raise assertion_error
elgamal_add (c ∷ ciphertexts) = ok (add_from c ciphertexts)

unfoldable pub elgamal_combine_public_keys : List ElementModP → ElementModP
elgamal_combine_public_keys keys = mult_p (map of_p keys)

module _ (gmp : Gmp) where
  -- What is raised before the logarithm is looked for leaves the cache alone. `fuel` bounds the
  -- rounds of the search.
  unfoldable pub decrypt_known_product :
      ℕ → ElGamalCiphertext → ElementModP → Dlog → Result ℕ × Dlog
  decrypt_known_product fuel c product s = elim (mult_inv_p gmp (of_p product)) [
    | ok inverse ↦ discrete_log fuel (mult_p (of_p c.encrypted_data ∷ of_p inverse ∷ [])) s
    | raise e ↦ (Result.raise e, s)
  ]

  unfoldable pub decrypt : ℕ → ElGamalCiphertext → ElementModQ → Dlog → Result ℕ × Dlog
  decrypt fuel c secret_key s =
      decrypt_known_product fuel c (pow_p gmp (of_p c.pad) (of_q secret_key)) s

  unfoldable pub decrypt_known_nonce :
      ℕ → ElGamalCiphertext → ElementModP → ElementModQ → Dlog → Result ℕ × Dlog
  decrypt_known_nonce fuel c public_key nonce s =
      decrypt_known_product fuel c (pow_p gmp (of_p public_key) (of_q nonce)) s

  unfoldable pub partial_decrypt : ElGamalCiphertext → ElementModQ → ElementModP
  partial_decrypt c secret_key = pow_p gmp (of_p c.pad) (of_q secret_key)

  -- secret_key_int < 2
  too_small : ℤ → Bool
  too_small (pos zero) = true
  too_small (pos (suc zero)) = true
  too_small (pos (suc (suc n))) = false
  too_small (negsuc n) = true

  unfoldable pub elgamal_keypair_from_secret : ElementModQ → Option ElGamalKeyPair
  unfolding too_small
  elgamal_keypair_from_secret a =
      if too_small a.elem
      then none
      else some (record { secret_key = a; public_key = g_pow_p gmp (of_q a) })

  -- Over what randbelow(Q) returns.
  unfoldable pub elgamal_keypair_random : List ℕ → Result ElGamalKeyPair
  elgamal_keypair_random draws = do
    secret ← rand_range_q 2 draws
    get_optional (elgamal_keypair_from_secret secret)

  unfoldable pub elgamal_encrypt : ℤ → ElementModQ → ElementModP → Option ElGamalCiphertext
  elgamal_encrypt m nonce public_key =
      if eq_q nonce zero_mod_q
      then none
      else flatmap_optional (int_to_q m) (λ e. some (record {
        pad = g_pow_p gmp (of_q nonce);
        encrypted_data =
            mult_p
              (of_p (g_pow_p gmp (of_q e)) ∷ of_p (pow_p gmp (of_p public_key) (of_q nonce)) ∷ []);
      }))
