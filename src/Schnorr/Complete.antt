-- ===== src/Schnorr/Complete.antt =====
-- The verifier of schnorr.py accepts what its prover makes.
use electionguard_python.Prelude.{ℕ, ◌+◌, ◌*◌, ◌%◌, ◌^◌, ◌≡◌, true, some}
use native.Mathlib.Nat.{mod-lt}
use electionguard_python.External.{Gmp, GmpLaws, Sha256}
use electionguard_python.Group.Constants.{P, Q, G}
use electionguard_python.Group.Residues.{
  zero-lt-P, zero-lt-Q, IsResidue-G, IsResidue-G-pow, mk-is_valid_residue,
}
use electionguard_python.Group.Elements.{
  is_in_bounds_q-mk, pow_p-pq, g_pow_p-q, mult_p-pp, a_plus_bc_q-mk, mk_p-is_in_bounds_p,
  mk_q-is_in_bounds_q, eq_p_self,
}
use electionguard_python.Group.Equations.{open_response_left}
use electionguard_python.Group.{ElementModQ, mk_q, mk_p, is_in_bounds_q}
use electionguard_python.Hash.{elem_p, end, item, hash_elems}
use electionguard_python.Hash.Laws.{hash_elems-mk}
use electionguard_python.Elgamal.{ElGamalKeyPair, elgamal_keypair_from_secret}
use electionguard_python.Elgamal.Decrypt.{elgamal_keypair_from_secret-mk}
use electionguard_python.Schnorr.{is_valid, make_schnorr_proof}

module _ {gmp : Gmp} (laws : GmpLaws gmp) (sha256 : Sha256) where
  complete-mk :
      (x r c : ℕ)
      → hash_elems sha256 (item (elem_p (mk_p (G ^ x % P))) (item (elem_p (mk_p (G ^ r % P))) end))
        ≡ mk_q c
      → is_valid gmp sha256 (
          make_schnorr_proof gmp sha256
            (record { secret_key = mk_q x; public_key = mk_p (G ^ x % P) })
            (mk_q r))
        ≡ true
  unfolding is_valid make_schnorr_proof
  complete-mk x r c h = simp (
    g_pow_p-q laws,
    h,
    a_plus_bc_q-mk,
    pow_p-pq laws,
    mult_p-pp,
    mk-is_valid_residue laws (G ^ x % P) (IsResidue-G-pow x),
    mk_p-is_in_bounds_p (G ^ r % P) (mod-lt (G ^ r) zero-lt-P),
    mk_q-is_in_bounds_q ((r + x * c) % Q) (mod-lt (r + x * c) zero-lt-Q),
    open_response_left G r x c IsResidue-G,
    eq_p_self,
  )

  -- For every key pair from a secret in bounds, and whatever nonce in bounds, the proof that
  -- make_schnorr_proof makes is valid.
  pub make_schnorr_proof-is_valid :
      (secret r : ElementModQ) {pair : ElGamalKeyPair}
      → is_in_bounds_q secret ≡ true
      → is_in_bounds_q r ≡ true
      → elgamal_keypair_from_secret gmp secret ≡ some pair
      → is_valid gmp sha256 (make_schnorr_proof gmp sha256 pair r) ≡ true
  make_schnorr_proof-is_valid secret r {pair} hs hr hp =
      let (x, secret_x, _) = is_in_bounds_q-mk secret hs in
      let (n, r_n, _) = is_in_bounds_q-mk r hr in
      let (key, public) = elgamal_keypair_from_secret-mk laws x (rw secret_x at hp) in
      let (c, challenge, _) =
        hash_elems-mk sha256
          (item (elem_p (mk_p (G ^ x % P))) (item (elem_p (mk_p (G ^ n % P))) end)) in
      let pair_x : pair ≡ record { secret_key = mk_q x; public_key = mk_p (G ^ x % P) } =
        λ i. record { secret_key = key i; public_key = public i } in
      rw (r_n, pair_x) (complete-mk x n c challenge)
