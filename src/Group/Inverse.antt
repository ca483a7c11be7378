-- ===== src/Group/Inverse.antt =====
-- Inverses and quotients modulo the primes (group.py: mult_inv_p, div_p, div_q).
use native.Mathlib.Nat.{mod-eq_of_lt, mod-lt, zero-mod, zero-mul, pow-suc, mul_comm}
use electionguard_python.Prelude.{
  ℕ, ◌-◌, ◌*◌, ◌%◌, ◌^◌, ◌<◌, ◌≡◌, ◌≢◌, refl, sym, ap, subst, ◌∙◌, Bool, true, false, [], ◌∷◌,
  arith, ◌==◌, if◌then◌else◌,
}
use electionguard_python.Prelude.Int.{pos}
use electionguard_python.Prelude.Result.{ok, raise, assertion_error, ◌>>=◌}
use electionguard_python.External.{Gmp, GmpLaws}
use electionguard_python.Modular.{mod-mul_cong, mod-mul_left, mod-mul_right}
use electionguard_python.Group.Constants.{P, Q, one-lt-P, one-lt-Q}
use electionguard_python.Group.Residues.{
  IsResidue, IsResidue-pow, one-mod-P, zero-lt-P, is_valid_residue-mk, mk-is_valid_residue,
}
use electionguard_python.Group.Elements.{mult_p-pp, mult_p-pi}
use electionguard_python.Group.{
  ElementModP, of_p, mk_p, mult_p, mult_inv_p, div_p, is_valid_residue, one_mod_p,
}

-- The inverse of a residue is its power to Q - 1: it has one.
pub residue_inverse : (n : ℕ) → IsResidue n → n * n ^ (Q - 1) % P ≡ 1
residue_inverse n r =
    ap (λ t. t % P)
      (mul_comm n (n ^ (Q - 1))
        ∙ sym (pow-suc n (Q - 1))
        ∙ ap (λ t. n ^ t) (omega (arith, one-lt-Q)))
    ∙ r.order
    ∙ one-mod-P

residue-ne-zero : (n : ℕ) → IsResidue n → n ≢ 0
residue-ne-zero n r z =
    let e : 0 ≡ 1 =
      sym (zero-mod P)
      ∙ ap (λ t. t % P) (sym (ap (λ (t : ℕ). t * n ^ (Q - 1)) z ∙ zero-mul (n ^ (Q - 1))))
      ∙ residue_inverse n r in
    absurd (omega (arith, e))

-- In a group the inverse is unique: what a residue times x gives determines x.
pub residue_cancel : (n x y : ℕ) → IsResidue n → x < P → y < P → n * x % P ≡ n * y % P → x ≡ y
residue_cancel n x y r hx hy h = sym (undo x hx) ∙ mod-mul_cong _ _ _ _ P refl h ∙ undo y hy
  where
    undo : (z : ℕ) → z < P → n ^ (Q - 1) * (n * z) % P ≡ z
    undo z hz =
        ap (λ t. t % P) (omega arith)
        ∙ sym (mod-mul_left (n * n ^ (Q - 1)) z P)
        ∙ ap (λ t. (t * z) % P) (residue_inverse n r)
        ∙ ap (λ t. t % P) (omega arith)
        ∙ mod-eq_of_lt hz

-- What inverts a residue is one: it is the power to Q - 1.
inverse-IsResidue : (n y : ℕ) → IsResidue n → y < P → n * y % P ≡ 1 → IsResidue y
inverse-IsResidue n y r below h =
    subst IsResidue
      (residue_cancel n (n ^ (Q - 1) % P) y r (mod-lt (n ^ (Q - 1)) zero-lt-P) below
        (mod-mul_right n (n ^ (Q - 1)) P ∙ residue_inverse n r ∙ sym h))
      (IsResidue-pow n (Q - 1) r)

nonzero : (n : ℕ) → n ≢ 0 → (n == 0) ≡ false
nonzero n h = ground arith

pub undo_product : (m n y p : ℕ) → n * y % p ≡ 1 → m < p → (m * n % p * y) % p ≡ m
undo_product m n y p h below =
    mod-mul_left (m * n) y p
    ∙ ap (λ t. t % p) (omega arith)
    ∙ sym (mod-mul_right m (n * y) p)
    ∙ ap (λ t. (m * t) % p) h
    ∙ ap (λ t. t % p) (omega arith)
    ∙ mod-eq_of_lt below

module _ {gmp : Gmp} (laws : GmpLaws gmp) where
  -- On a residue `mult_inv_p` does not raise.
  pub mult_inv_p-mk :
      (n : ℕ)
      → IsResidue n
      → (y : ℕ) × (mult_inv_p gmp (of_p (mk_p n)) ≡ ok (mk_p y)) × (y < P) × (n * y % P ≡ 1)
  unfolding mult_inv_p
  mult_inv_p-mk n r =
      let (y, found, below, inverse) =
        laws.invert_lem n (n ^ (Q - 1)) P one-lt-P (residue_inverse n r) in
      (y, guard (n == 0) (nonzero n (residue-ne-zero n r)) found, below, inverse)
    where
      guard :
          (b : Bool)
          → b ≡ false
          → {y : ℕ} → gmp.invert (pos n) P ≡ ok (pos y)
          → (if b
              then raise assertion_error
              else (do inverse ← gmp.invert (pos n) P; ok (record { elem = inverse })))
            ≡ ok (mk_p y)
      guard b e found = rw (e, found)

  -- A valid residue has an inverse modulo P, which `mult_inv_p` finds: it is a valid residue, and
  -- their product is one.
  mult_inv_p-inverse :
      (a : ElementModP)
      → is_valid_residue gmp a ≡ true
      → (b : ElementModP) × (mult_inv_p gmp (of_p a) ≡ ok b)
        × (is_valid_residue gmp b ≡ true)
        × (mult_p (of_p a ∷ of_p b ∷ []) ≡ one_mod_p)
  mult_inv_p-inverse a h =
      let (n, an, r) = is_valid_residue-mk laws a h in
      let (y, found, below, inverse) = mult_inv_p-mk n r in
      (
        mk_p y,
        rw an found,
        mk-is_valid_residue laws y (inverse-IsResidue n y r below inverse),
        rw (an, mult_p-pp n y, inverse),
      )

  -- Dividing a product of valid residues by one factor gives the other factor back.
  div_p-mult_p :
      (a b : ElementModP)
      → is_valid_residue gmp a ≡ true
      → is_valid_residue gmp b ≡ true
      → div_p gmp (of_p (mult_p (of_p a ∷ of_p b ∷ []))) (of_p b) ≡ ok a
  unfolding div_p
  div_p-mult_p a b ha hb =
      let (m, am, ra) = is_valid_residue-mk laws a ha in
      let (n, bn, rb) = is_valid_residue-mk laws b hb in
      let (y, found, below, inverse) =
        laws.invert_lem n (n ^ (Q - 1)) P one-lt-P (residue_inverse n rb) in
      rw (am, bn, found, mult_p-pp m n, mult_p-pi (m * n % P) y)
        (ap (λ t. ok (mk_p t)) (undo_product m n y P inverse ra.below))
