-- ===== src/Group/Residues.antt =====
-- The subgroup of order Q: what ElementModP.is_valid_residue accepts (group.py).
-- Its members are closed under products and powers, and their exponents count modulo Q.
use native.Mathlib.Nat.{mod-eq_of_lt, mod-lt, mod-mod}
use electionguard_python.Prelude.{
  ℕ, ◌+◌, ◌*◌, ◌%◌, ◌^◌, ◌<◌, ◌≡◌, sym, ap, ◌∙◌, true, [], ◌∷◌, arith, &&-true, &&-left, &&-right,
}
use electionguard_python.Prelude.Int.{to_ℕ}
use electionguard_python.External.{Gmp, GmpLaws}
use electionguard_python.Modular.{
  one_pow, mod-mul_cong, mod-pow, mul_pow, pow_add, pow_cong, pow-order,
}
use electionguard_python.Group.Constants.{P, Q, G, one-lt-P, one-lt-Q, G-lt-P, G-pow-Q}
use electionguard_python.Group.Elements.{
  is_in_bounds_q-mk, is_in_bounds_p-mk, mk_p-is_in_bounds_p, eq_p→eq, eq_p_self, pow_p-pq,
  g_pow_p-q, mult_p-pp, add_q-qq,
}
use electionguard_python.Group.{
  ElementModQ, ElementModP, of_p, of_q, mk_q, mk_p, is_in_bounds_q, add_q, mult_p, pow_p, g_pow_p,
  is_valid_residue, one_mod_p,
}

-- A number whose element is a valid residue.
pub record IsResidue (n : ℕ) : Type 0 where
  pub below : n < P
  pub order : n ^ Q % P ≡ 1 % P

pub one-mod-P : 1 % P ≡ 1
one-mod-P = mod-eq_of_lt one-lt-P

pub zero-lt-P : 0 < P
zero-lt-P = omega (arith, one-lt-P)

pub zero-lt-Q : 0 < Q
zero-lt-Q = omega (arith, one-lt-Q)

pub IsResidue-G : IsResidue G
IsResidue-G = record { below = G-lt-P; order = G-pow-Q ∙ sym one-mod-P }

pub IsResidue-one : IsResidue 1
IsResidue-one = record { below = one-lt-P; order = ap (λ t. t % P) (one_pow Q) }

pub IsResidue-pow : (n e : ℕ) → IsResidue n → IsResidue (n ^ e % P)
IsResidue-pow n e r = record { below = mod-lt (n ^ e) zero-lt-P; order = pow-order n Q P e r.order }

pub IsResidue-mul : (a b : ℕ) → IsResidue a → IsResidue b → IsResidue ((a * b) % P)
IsResidue-mul a b r s = record {
  below = mod-lt (a * b) zero-lt-P;
  order =
      mod-pow (a * b) Q P
      ∙ ap (λ t. t % P) (mul_pow a b Q)
      ∙ mod-mul_cong _ _ _ _ P r.order s.order;
}

pub IsResidue-G-pow : (e : ℕ) → IsResidue (G ^ e % P)
IsResidue-G-pow e = IsResidue-pow G e IsResidue-G

-- Exponents of a residue count modulo Q.
pub residue-pow_cong : (n e e' : ℕ) → IsResidue n → e % Q ≡ e' % Q → n ^ e % P ≡ n ^ e' % P
residue-pow_cong n e e' r h = pow_cong n Q P e e' r.order h

pub mk_p-injective : {m n : ℕ} → mk_p m ≡ mk_p n → m ≡ n
mk_p-injective h = ap (λ (x : ElementModP). to_ℕ x.elem) h

exponents_add : (n i j : ℕ) → IsResidue n → n ^ ((i + j) % Q) % P ≡ (n ^ i % P * (n ^ j % P)) % P
exponents_add n i j r =
    residue-pow_cong n ((i + j) % Q) (i + j) r (mod-mod (i + j) Q)
    ∙ ap (λ t. t % P) (pow_add n i j)
    ∙ mod-mul_cong _ _ _ _ P (sym (mod-mod (n ^ i) P)) (sym (mod-mod (n ^ j) P))

module _ {gmp : Gmp} (laws : GmpLaws gmp) where
  pub is_valid_residue-mk :
      (e : ElementModP) → is_valid_residue gmp e ≡ true → (n : ℕ) × (e ≡ mk_p n) × IsResidue n
  unfolding is_valid_residue
  is_valid_residue-mk e h =
      let (n, r, below) = is_in_bounds_p-mk e (&&-left _ _ h) in
      let check : pow_p gmp (of_p e) (of_q (mk_q Q)) ≡ one_mod_p = eq_p→eq _ _ (&&-right _ _ h) in
      let power : mk_p (n ^ Q % P) ≡ one_mod_p =
        sym (pow_p-pq laws n Q) ∙ ap (λ x. pow_p gmp (of_p x) (of_q (mk_q Q))) (sym r) ∙ check in
      (n, r, record { below = below; order = mk_p-injective power ∙ sym one-mod-P })

  pub mk-is_valid_residue : (n : ℕ) → IsResidue n → is_valid_residue gmp (mk_p n) ≡ true
  unfolding is_valid_residue
  mk-is_valid_residue n r =
      &&-true _ _ (mk_p-is_in_bounds_p n r.below)
        (rw (pow_p-pq laws n Q, r.order, one-mod-P) (eq_p_self one_mod_p))

  -- Valid residues are closed under products, and every power of one is one, whatever the exponent
  -- in bounds.
  pub residues_closed :
      (a b : ElementModP) (e : ElementModQ)
      → is_valid_residue gmp a ≡ true
      → is_valid_residue gmp b ≡ true
      → is_in_bounds_q e ≡ true
      → (is_valid_residue gmp (mult_p (of_p a ∷ of_p b ∷ [])) ≡ true)
        × (is_valid_residue gmp (pow_p gmp (of_p a) (of_q e)) ≡ true)
        × (is_valid_residue gmp (g_pow_p gmp (of_q e)) ≡ true)
  residues_closed a b e ha hb he =
      let (m, am, rm) = is_valid_residue-mk a ha in
      let (n, bn, rn) = is_valid_residue-mk b hb in
      let (k, ek, below) = is_in_bounds_q-mk e he in
      rw (am, bn, ek, mult_p-pp m n, pow_p-pq laws m k, g_pow_p-q laws k)
        (
          mk-is_valid_residue _ (IsResidue-mul m n rm rn),
          mk-is_valid_residue _ (IsResidue-pow m k rm),
          mk-is_valid_residue _ (IsResidue-G-pow k),
        )

  -- Powers of a valid residue turn sums modulo Q into products modulo P, for G as for any other.
  pub pow_p-add_q :
      (k : ElementModP) (a b : ElementModQ)
      → is_valid_residue gmp k ≡ true
      → is_in_bounds_q a ≡ true
      → is_in_bounds_q b ≡ true
      → (pow_p gmp (of_p k) (of_q (add_q (of_q a ∷ of_q b ∷ [])))
          ≡ mult_p (of_p (pow_p gmp (of_p k) (of_q a)) ∷ of_p (pow_p gmp (of_p k) (of_q b)) ∷ []))
        × (g_pow_p gmp (of_q (add_q (of_q a ∷ of_q b ∷ [])))
            ≡ mult_p (of_p (g_pow_p gmp (of_q a)) ∷ of_p (g_pow_p gmp (of_q b)) ∷ []))
  pow_p-add_q k a b hk ha hb =
      let (n, kn, rn) = is_valid_residue-mk k hk in
      let (i, ai, _) = is_in_bounds_q-mk a ha in
      let (j, bj, _) = is_in_bounds_q-mk b hb in
      rw (kn, ai, bj, add_q-qq i j)
        (
          simp (pow_p-pq laws, g_pow_p-q laws, mult_p-pp) (ap mk_p (exponents_add n i j rn)),
          simp (pow_p-pq laws, g_pow_p-q laws, mult_p-pp)
              (ap mk_p (exponents_add G i j IsResidue-G)),
        )
