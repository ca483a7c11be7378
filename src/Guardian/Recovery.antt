-- ===== src/Guardian/Recovery.antt =====
-- guardian.py: the public key that a guardian recovers for its backup of a missing guardian.
use native.Mathlib.Nat.{mod-mod, mod-add-mod, pow-zero}
use electionguard_python.Prelude.{
  ℕ, ◌+◌, ◌*◌, ◌%◌, ◌^◌, ◌<◌, ◌≡◌, refl, sym, ap, ◌∙◌, Option, some, List, [], ◌∷◌, arith, map,
  lt→ltb,
}
use electionguard_python.Prelude.Int.{pos}
use electionguard_python.Prelude.Result.{ok}
use electionguard_python.Prelude.Digits.{Text}
use electionguard_python.External.{Gmp, GmpLaws, Sha256}
use electionguard_python.Modular.{mod-pow, pow_mul}
use electionguard_python.Group.Constants.{P, Q, G}
use electionguard_python.Group.Residues.{one-mod-P, IsResidue-G, residue-pow_cong}
use electionguard_python.Group.Elements.{mult_p-pp, pow_p-pq, pow_q-ii, g_pow_p-q}
use electionguard_python.Group.{ElementModQ, ElementModP, of_q, mk_q, mk_p, g_pow_p, one_mod_p}
use electionguard_python.Elgamal.Homomorphic.{pow_sum}
use electionguard_python.ElectionPolynomial.{
  ElectionPolynomial, compute_from, compute_polynomial_coordinate, generate_from,
  generate_polynomial,
}
use electionguard_python.ElectionPolynomial.Verify.{
  AreNatural, compute-step, generated-commitments, generated-AreNatural,
}
use electionguard_python.DataStore.{get}
use electionguard_python.KeyCeremony.{ElectionPartialKeyBackup}
use electionguard_python.Guardian.{Guardian}
use electionguard_python.Guardian.Decrypt.{recovery_from, recovery_public_key_for}

-- One round: the commitment to the coordinate so far, with the exponent modulo Q.
round : (v a e : ℕ) → (G ^ v % P * ((G ^ a % P) ^ e % P)) % P ≡ G ^ ((v + (a * e) % Q) % Q) % P
round v a e =
    ap (λ t. (G ^ v % P * t) % P) (mod-pow (G ^ a) e P ∙ ap (λ t. t % P) (sym (pow_mul G a e)))
    ∙ pow_sum G v (a * e) P
    ∙ residue-pow_cong G (v + a * e) ((v + (a * e) % Q) % Q) IsResidue-G (
        ap (λ t. t % Q) (omega arith)
        ∙ sym (mod-add-mod (a * e) Q v)
        ∙ ap (λ t. t % Q) (omega arith)
        ∙ sym (mod-mod (v + (a * e) % Q) Q))

module _ {gmp : Gmp} (laws : GmpLaws gmp) (x : ℕ) where
  recovery-step :
      (i v a : ℕ) (cs : List ElementModP)
      → recovery_from gmp (pos x) i (mk_p (G ^ v % P)) (mk_p (G ^ a % P) ∷ cs)
        ≡ recovery_from gmp (pos x) (i + 1) (mk_p (G ^ ((v + (a * (x ^ i % Q)) % Q) % Q) % P)) cs
  unfolding recovery_from
  recovery-step i v a cs = rw (
    pow_q-ii laws x i,
    pow_p-pq laws (G ^ a % P) (x ^ i % Q),
    mult_p-pp (G ^ v % P) ((G ^ a % P) ^ (x ^ i % Q) % P),
    round v a (x ^ i % Q),
  )

  -- The coordinate, and what is recovered from the commitments.
  coordinate-recovered :
      (i v : ℕ) (cs : List ElementModQ)
      → AreNatural cs
      → (w : ℕ) × (compute_from gmp (pos x) i (mk_q v) cs ≡ mk_q w)
        × (recovery_from gmp (pos x) i (mk_p (G ^ v % P)) (map (λ c. g_pow_p gmp (of_q c)) cs)
            ≡ mk_p (G ^ w % P))
  unfolding compute_from recovery_from
  coordinate-recovered i v [] n = (v, refl, refl)
  coordinate-recovered i v (c ∷ cs) n =
      let (a, c_a) = n.0 in
      let rest = map (λ d. g_pow_p gmp (of_q d)) cs in
      let (w, computed, recovered) =
        coordinate-recovered (i + 1) ((v + (a * (x ^ i % Q)) % Q) % Q) cs n.1 in
      (
        w,
        ap (λ t. compute_from gmp (pos x) i (mk_q v) (t ∷ cs)) c_a
            ∙ compute-step laws x i v a cs
            ∙ computed,
        ap (λ t. recovery_from gmp (pos x) i (mk_p (G ^ v % P)) (t ∷ rest))
              (ap (λ t. g_pow_p gmp (of_q t)) c_a ∙ g_pow_p-q laws a)
            ∙ recovery-step i v a rest
            ∙ recovered,
      )

-- Where a guardian with a sequence order below Q has a backup with the commitments of a polynomial that
-- generate_polynomial made, the public key that it recovers is the one for the coordinate of the
-- polynomial at its sequence order: the power of the generator to what compute_polynomial_coordinate
-- returns.
pub recovery_public_key_for-compute_polynomial_coordinate :
    {gmp : Gmp}
    → GmpLaws gmp
    → (sha256 : Sha256) (seed : Option ElementModQ) (drawn drawn_proof : ℕ → ℕ) (x number : ℕ)
      (missing : Text) (backup : ElectionPartialKeyBackup) (g : Guardian)
    → x < Q
    → g.sequence_order ≡ pos x
    → get missing g.election_partial_key_backups ≡ some backup
    → let polynomial = generate_polynomial gmp sha256 (pos number) seed drawn drawn_proof in
      backup.coefficient_commitments ≡ polynomial.coefficient_commitments
      → (coordinate : ElementModQ) × (compute_polynomial_coordinate gmp g.sequence_order polynomial
          ≡ ok coordinate)
        × (recovery_public_key_for gmp missing g ≡ some (g_pow_p gmp (of_q coordinate)))
unfolding generate_polynomial compute_polynomial_coordinate recovery_public_key_for
recovery_public_key_for-compute_polynomial_coordinate {gmp} laws sha256 seed drawn drawn_proof x
      number missing backup g hx order there commitments =
    let made : ElectionPolynomial = generate_from gmp sha256 seed drawn drawn_proof 0 number in
    let (w, computed, recovered) =
      coordinate-recovered laws x 0 0 made.coefficients
        (generated-AreNatural gmp sha256 seed drawn drawn_proof 0 number) in
    let one_power : one_mod_p ≡ mk_p (G ^ 0 % P) =
      ap mk_p (sym (ap (λ t. t % P) (pow-zero G) ∙ one-mod-P)) in
    (
      mk_q w,
      rw (order, lt→ltb x Q hx) (ap ok computed),
      rw (there, order, recovery_public_key_for)
          (ap some (
            ap (recovery_from gmp (pos x) 0 one_mod_p)
              (commitments ∙ generated-commitments gmp sha256 seed drawn drawn_proof 0 number)
            ∙ ap
                (λ t.
                  recovery_from gmp (pos x) 0 t (map (λ c. g_pow_p gmp (of_q c)) made.coefficients))
                one_power
            ∙ recovered
            ∙ sym (g_pow_p-q laws w))),
    )
