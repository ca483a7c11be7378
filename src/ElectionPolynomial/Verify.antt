-- ===== src/ElectionPolynomial/Verify.antt =====
-- A coordinate that a guardian computes is verified against the commitments to its polynomial
-- (election_polynomial.py).
use native.Mathlib.Nat.{mod-eq_of_lt, mod-mod, mod-add-mod, pow-zero}
use electionguard_python.Prelude.{
  ℕ, zero, suc, ◌+◌, ◌*◌, ◌%◌, ◌^◌, ◌<◌, ◌≡◌, refl, sym, ap, ◌∙◌, true, Option, none, some, List,
  [], ◌∷◌, arith, length, map, lt→ltb,
}
use electionguard_python.Prelude.Int.{pos}
use electionguard_python.Prelude.Result.{ok}
use electionguard_python.External.{Gmp, GmpLaws, Sha256}
use electionguard_python.Modular.{mod-mul_right, mod-pow, pow_mul}
use electionguard_python.Group.Constants.{P, Q, G}
use electionguard_python.Group.Residues.{one-mod-P, IsResidue-G, residue-pow_cong}
use electionguard_python.Group.Elements.{
  is_in_bounds_q-mk, eq_p_self, add_q-qq, mult_p-pp, mult_q-qq, pow_p-pp, pow_q-ii, g_pow_p-q,
}
use electionguard_python.Group.Bounds.{arithmetic_in_bounds}
use electionguard_python.Group.{
  eq_p, add_q, of_int, ElementModQ, ElementModP, of_q, mk_q, mk_p, g_pow_p, one_mod_p,
}
use electionguard_python.Elgamal.Homomorphic.{pow_sum}
use electionguard_python.ElectionPolynomial.{
  ElectionPolynomial, compute_from, compute_polynomial_coordinate, commitments_from,
  verify_polynomial_coordinate, coefficient_of, generate_from, generate_polynomial,
}

sum_cong : (v a e q : ℕ) → (v + a * e) % q ≡ ((v + (a * (e % q)) % q) % q) % q
sum_cong v a e q =
    ap (λ t. t % q) (omega arith)
    ∙ sym (mod-add-mod (a * e) q v)
    ∙ ap (λ t. (t + v) % q) (sym (mod-mul_right a e q))
    ∙ ap (λ t. t % q) (omega arith)
    ∙ sym (mod-mod (v + (a * (e % q)) % q) q)

-- One round: the commitment to the coordinate so far.
round :
    (v a e : ℕ)
    → e < P
    → (G ^ v % P * ((G ^ a % P) ^ (e % P) % P)) % P ≡ G ^ ((v + (a * (e % Q)) % Q) % Q) % P
round v a e h =
    ap (λ t. (G ^ v % P * ((G ^ a % P) ^ t % P)) % P) (mod-eq_of_lt h)
    ∙ ap (λ t. (G ^ v % P * t) % P) (mod-pow (G ^ a) e P ∙ ap (λ t. t % P) (sym (pow_mul G a e)))
    ∙ pow_sum G v (a * e) P
    ∙ residue-pow_cong G (v + a * e) ((v + (a * (e % Q)) % Q) % Q) IsResidue-G (sum_cong v a e Q)

-- Coefficients that hold natural numbers.
abbrev pub AreNatural : List ElementModQ → Type 0
AreNatural [] = Unit
AreNatural (c ∷ cs) = ((n : ℕ) × (c ≡ mk_q n)) × AreNatural cs

module _ {gmp : Gmp} (laws : GmpLaws gmp) (x : ℕ) where
  pub compute-step :
      (i v a : ℕ) (cs : List ElementModQ)
      → compute_from gmp (pos x) i (mk_q v) (mk_q a ∷ cs)
        ≡ compute_from gmp (pos x) (i + 1) (mk_q ((v + (a * (x ^ i % Q)) % Q) % Q)) cs
  unfolding compute_from
  compute-step i v a cs =
      rw (pow_q-ii laws x i, mult_q-qq a (x ^ i % Q), add_q-qq v ((a * (x ^ i % Q)) % Q))

  commitments-step :
      (i v a : ℕ) (cs : List ElementModP)
      → x ^ i < P
      → commitments_from gmp (pos x) i (mk_p (G ^ v % P)) (mk_p (G ^ a % P) ∷ cs)
        ≡ commitments_from gmp (pos x) (i + 1) (mk_p (G ^ ((v + (a * (x ^ i % Q)) % Q) % Q) % P)) cs
  unfolding commitments_from
  commitments-step i v a cs h = rw (
    pow_p-pp laws x i,
    pow_p-pp laws (G ^ a % P) (x ^ i % P),
    mult_p-pp (G ^ v % P) ((G ^ a % P) ^ (x ^ i % P) % P),
    round v a (x ^ i) h,
  )

  -- The coordinate, and what the verifier makes of the commitments.
  coordinate-committed :
      (i v : ℕ) (cs : List ElementModQ)
      → AreNatural cs
      → ((j : ℕ) → j < i + length cs → x ^ j < P)
      → (w : ℕ) × (compute_from gmp (pos x) i (mk_q v) cs ≡ mk_q w)
        × (commitments_from gmp (pos x) i (mk_p (G ^ v % P)) (map (λ c. g_pow_p gmp (of_q c)) cs)
            ≡ mk_p (G ^ w % P))
  unfolding compute_from commitments_from
  coordinate-committed i v [] n h = (v, refl, refl)
  coordinate-committed i v (c ∷ cs) n h =
      let (a, c_a) = n.0 in
      let (w, computed, committed) =
        coordinate-committed (i + 1) ((v + (a * (x ^ i % Q)) % Q) % Q) cs n.1
          (λ j below. h j (omega (arith, below))) in
      (
        w,
        ap (λ t. compute_from gmp (pos x) i (mk_q v) (t ∷ cs)) c_a
            ∙ compute-step i v a cs
            ∙ computed,
        ap
              (λ t.
                commitments_from gmp (pos x) i (mk_p (G ^ v % P))
                  (t ∷ map (λ c. g_pow_p gmp (of_q c)) cs))
              (ap (λ t. g_pow_p gmp (of_q t)) c_a ∙ g_pow_p-q laws a)
            ∙ commitments-step i v a (map (λ c. g_pow_p gmp (of_q c)) cs) (h i (omega arith))
            ∙ committed,
      )

module _ (gmp : Gmp) (sha256 : Sha256) (seed : Option ElementModQ) (drawn drawn_proof : ℕ → ℕ) where
  pub generated-commitments :
      (i rounds : ℕ)
      → (generate_from gmp sha256 seed drawn drawn_proof i rounds).coefficient_commitments
        ≡ map
            (λ c. g_pow_p gmp (of_q c))
            (generate_from gmp sha256 seed drawn drawn_proof i rounds).coefficients
  unfolding generate_from
  generated-commitments i zero = refl
  generated-commitments i (suc rounds) =
      ap (λ t. g_pow_p gmp (of_q (coefficient_of seed i (drawn i))) ∷ t)
        (generated-commitments (i + 1) rounds)

  generated-length :
      (i rounds : ℕ)
      → length (generate_from gmp sha256 seed drawn drawn_proof i rounds).coefficients ≡ rounds
  unfolding generate_from
  generated-length i zero = refl
  generated-length i (suc rounds) = ap suc (generated-length (i + 1) rounds)

  coefficient-natural : (i : ℕ) → (n : ℕ) × (coefficient_of seed i (drawn i) ≡ mk_q n)
  unfolding coefficient_of
  coefficient-natural i = by_seed seed
    where
      by_seed : (s : Option ElementModQ) → (n : ℕ) × (coefficient_of s i (drawn i) ≡ mk_q n)
      by_seed none = (drawn i, refl)
      by_seed (some n) =
          let sum = of_q n ∷ of_int (pos i) ∷ [] in
          let (m, e, _) =
            is_in_bounds_q-mk (add_q sum) (arithmetic_in_bounds (of_q n) (of_q n) (of_q n) sum).0 in
          (m, e)

  pub generated-AreNatural :
      (i rounds : ℕ)
      → AreNatural (generate_from gmp sha256 seed drawn drawn_proof i rounds).coefficients
  unfolding generate_from
  generated-AreNatural i zero = tt
  generated-AreNatural i (suc rounds) = (coefficient-natural i, generated-AreNatural (i + 1) rounds)

  -- For every polynomial that generate_polynomial makes, from a nonce or from drawn coefficients, and
  -- every sequence order below Q whose powers up to the number of coefficients are below P, the
  -- coordinate that compute_polynomial_coordinate returns is verified by verify_polynomial_coordinate
  -- against the polynomial's commitments.
  pub verify-compute_polynomial_coordinate :
      GmpLaws gmp
      → (x number : ℕ) → x < Q
      → ((j : ℕ) → j < number → x ^ j < P)
      → let polynomial = generate_polynomial gmp sha256 (pos number) seed drawn drawn_proof in
        (coordinate : ElementModQ) × (compute_polynomial_coordinate gmp (pos x) polynomial
          ≡ ok coordinate)
        × (verify_polynomial_coordinate gmp coordinate (pos x) polynomial.coefficient_commitments
            ≡ true)
  unfolding generate_polynomial compute_polynomial_coordinate verify_polynomial_coordinate
  verify-compute_polynomial_coordinate laws x number hx hp =
      let made : ElectionPolynomial = generate_from gmp sha256 seed drawn drawn_proof 0 number in
      let (w, computed, committed) =
        coordinate-committed laws x 0 0 made.coefficients (generated-AreNatural 0 number)
          (λ j below. hp j (omega (arith, below, generated-length 0 number))) in
      let one_power : one_mod_p ≡ mk_p (G ^ 0 % P) =
        ap mk_p (sym (ap (λ t. t % P) (pow-zero G) ∙ one-mod-P)) in
      let output : commitments_from gmp (pos x) 0 one_mod_p made.coefficient_commitments
          ≡ mk_p (G ^ w % P) =
        ap (λ t. commitments_from gmp (pos x) 0 t made.coefficient_commitments) one_power
        ∙ ap (commitments_from gmp (pos x) 0 (mk_p (G ^ 0 % P))) (generated-commitments 0 number)
        ∙ committed in
      (
        mk_q w,
        rw (lt→ltb x Q hx) (ap ok computed),
        ap (λ t. eq_p t (commitments_from gmp (pos x) 0 one_mod_p made.coefficient_commitments))
              (g_pow_p-q laws w)
            ∙ ap (eq_p (mk_p (G ^ w % P))) output
            ∙ eq_p_self (mk_p (G ^ w % P)),
      )
