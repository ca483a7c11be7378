-- ===== src/Group/Elements.antt =====
-- The arithmetic of group.py on elements that hold natural numbers: one equation for each call.
use native.Mathlib.Nat.{mod-eq_of_lt, mod-add-mod, add-mod_right}
use electionguard_python.Prelude.{
  ℕ, ◌+◌, ◌-◌, ◌*◌, ◌%◌, ◌^◌, ◌≤◌, ◌<◌, ◌≡◌, refl, sym, ap, ◌∙◌, true, [], ◌∷◌, arith, lt→ltb,
  dec_lt,
}
use electionguard_python.Prelude.Int.{
  ℤ, pos, negsuc, ==ℤ_self, ==ℤ→eq, ◌-ℤ◌, ◌%ℤ◌, sub_ℕ-le, sub_ℕ-lt,
}
use electionguard_python.External.{Gmp, GmpLaws}
use electionguard_python.Modular.{mod-mul_left}
use electionguard_python.Group.Constants.{P, Q, G, one-lt-P, one-lt-Q}
use electionguard_python.Group.{
  ElementModQ, ElementModP, of_p, of_q, of_int, mk_q, mk_p, is_in_bounds_q, is_in_bounds_p, eq_p,
  eq_q, add_q, a_minus_b_q, negate_q, a_plus_bc_q, mult_p, mult_q, pow_p, pow_q, g_pow_p,
}

-- An element in bounds holds a natural number below the modulus.
pub is_in_bounds_q-mk :
    (e : ElementModQ) → is_in_bounds_q e ≡ true → (n : ℕ) × (e ≡ mk_q n) × (n < Q)
unfolding is_in_bounds_q
is_in_bounds_q-mk e h = go e.elem refl
  where
    go : (i : ℤ) → e.elem ≡ i → (n : ℕ) × (e ≡ mk_q n) × (n < Q)
    go (pos n) r = (n, ground arith, ground arith)
    go (negsuc n) r = ground arith

pub is_in_bounds_p-mk :
    (e : ElementModP) → is_in_bounds_p e ≡ true → (n : ℕ) × (e ≡ mk_p n) × (n < P)
unfolding is_in_bounds_p
is_in_bounds_p-mk e h = go e.elem refl
  where
    go : (i : ℤ) → e.elem ≡ i → (n : ℕ) × (e ≡ mk_p n) × (n < P)
    go (pos n) r = (n, ground arith, ground arith)
    go (negsuc n) r = ground arith

pub mk_q-is_in_bounds_q : (n : ℕ) → n < Q → is_in_bounds_q (mk_q n) ≡ true
unfolding is_in_bounds_q
mk_q-is_in_bounds_q n h = lt→ltb n Q h

pub mk_p-is_in_bounds_p : (n : ℕ) → n < P → is_in_bounds_p (mk_p n) ≡ true
unfolding is_in_bounds_p
mk_p-is_in_bounds_p n h = lt→ltb n P h

pub eq_p_self : (a : ElementModP) → eq_p a a ≡ true
unfolding eq_p
eq_p_self a = ==ℤ_self a.elem

pub eq_q_self : (a : ElementModQ) → eq_q a a ≡ true
unfolding eq_q
eq_q_self a = ==ℤ_self a.elem

pub eq_p→eq : (a b : ElementModP) → eq_p a b ≡ true → a ≡ b
unfolding eq_p
eq_p→eq a b h = ground (arith, ==ℤ→eq a.elem b.elem)

pub eq_q→eq : (a b : ElementModQ) → eq_q a b ≡ true → a ≡ b
unfolding eq_q
eq_q→eq a b h = ground (arith, ==ℤ→eq a.elem b.elem)

two_factors : (a b m : ℕ) → (1 * a % m * b) % m ≡ (a * b) % m
two_factors a b m = mod-mul_left (1 * a) b m ∙ ap (λ t. (t * b) % m) (omega arith)

-- Python's (a - b) % m, for 0 <= b <= m.
sub_mod : (a b m : ℕ) → 0 < m → b ≤ m → (pos a -ℤ pos b) %ℤ m ≡ pos ((a + (m - b)) % m)
sub_mod a b m z h = elim (dec_lt a b) [
  | yes below ↦
      rw (sub_ℕ-lt a b below, mod-eq_of_lt {n = b - a - 1} {m = m} (omega arith))
        (ap pos (omega arith ∙ sym (mod-eq_of_lt {n = a + (m - b)} {m = m} (omega arith))))
  | no above ↦
      rw (sub_ℕ-le a b (omega arith))
        (ap pos (sym (add-mod_right (a - b) m) ∙ ap (λ t. t % m) (omega arith)))
]

-- What the operations are on elements that hold natural numbers, with every call shut.
pub add_q-qq : (a b : ℕ) → add_q (of_q (mk_q a) ∷ of_q (mk_q b) ∷ []) ≡ mk_q ((a + b) % Q)
unfolding add_q
add_q-qq a b = ap mk_q (mod-add-mod (0 + a) Q b ∙ ap (λ t. (t + b) % Q) (omega arith))

pub mult_p-pp : (a b : ℕ) → mult_p (of_p (mk_p a) ∷ of_p (mk_p b) ∷ []) ≡ mk_p ((a * b) % P)
unfolding mult_p
mult_p-pp a b = ap mk_p (two_factors a b P)

pub mult_p-pi : (a b : ℕ) → mult_p (of_p (mk_p a) ∷ of_int (pos b) ∷ []) ≡ mk_p ((a * b) % P)
unfolding mult_p
mult_p-pi a b = ap mk_p (two_factors a b P)

pub mult_q-qq : (a b : ℕ) → mult_q (of_q (mk_q a) ∷ of_q (mk_q b) ∷ []) ≡ mk_q ((a * b) % Q)
unfolding mult_q
mult_q-qq a b = ap mk_q (two_factors a b Q)

pub mult_p-ppp :
    (a b c : ℕ)
    → mult_p (of_p (mk_p a) ∷ of_p (mk_p b) ∷ of_p (mk_p c) ∷ []) ≡ mk_p ((a * b * c) % P)
unfolding mult_p
mult_p-ppp a b c = ap mk_p (ap (λ t. (t * c) % P) (two_factors a b P) ∙ mod-mul_left (a * b) c P)

pub mult_p-qq : (a b : ℕ) → mult_p (of_q (mk_q a) ∷ of_q (mk_q b) ∷ []) ≡ mk_p ((a * b) % P)
unfolding mult_p
mult_p-qq a b = ap mk_p (two_factors a b P)

pub a_plus_bc_q-mk :
    (a b c : ℕ)
    → a_plus_bc_q (of_q (mk_q a)) (of_q (mk_q b)) (of_q (mk_q c)) ≡ mk_q ((a + b * c) % Q)
unfolding a_plus_bc_q
a_plus_bc_q-mk a b c = refl

pub a_minus_b_q-mk :
    (a b : ℕ) → b ≤ Q → a_minus_b_q (of_q (mk_q a)) (of_q (mk_q b)) ≡ mk_q ((a + (Q - b)) % Q)
unfolding a_minus_b_q
a_minus_b_q-mk a b h = ap (λ i. record { elem = i }) (sub_mod a b Q (omega (arith, one-lt-Q)) h)

pub negate_q-mk : (a : ℕ) → a ≤ Q → negate_q (of_q (mk_q a)) ≡ mk_q (Q - a)
unfolding negate_q
negate_q-mk a h = ground arith

module _ {gmp : Gmp} (laws : GmpLaws gmp) where
  pub pow_p-pq : (b e : ℕ) → pow_p gmp (of_p (mk_p b)) (of_q (mk_q e)) ≡ mk_p (b ^ e % P)
  unfolding pow_p
  pow_p-pq b e = ap (λ i. record { elem = i }) (laws.powmod_lem b e P one-lt-P)

  pub pow_p-pp : (b e : ℕ) → pow_p gmp (of_p (mk_p b)) (of_p (mk_p e)) ≡ mk_p (b ^ e % P)
  unfolding pow_p
  pow_p-pp b e = ap (λ i. record { elem = i }) (laws.powmod_lem b e P one-lt-P)

  pub pow_p-ii : (b e : ℕ) → pow_p gmp (of_int (pos b)) (of_int (pos e)) ≡ mk_p (b ^ e % P)
  unfolding pow_p
  pow_p-ii b e = ap (λ i. record { elem = i }) (laws.powmod_lem b e P one-lt-P)

  pub pow_q-ii : (b e : ℕ) → pow_q gmp (of_int (pos b)) (of_int (pos e)) ≡ mk_q (b ^ e % Q)
  unfolding pow_q
  pow_q-ii b e = ap (λ i. record { elem = i }) (laws.powmod_lem b e Q one-lt-Q)

  pub g_pow_p-q : (e : ℕ) → g_pow_p gmp (of_q (mk_q e)) ≡ mk_p (G ^ e % P)
  unfolding g_pow_p
  g_pow_p-q e = pow_p-pq G e

  pub g_pow_p-p : (e : ℕ) → g_pow_p gmp (of_p (mk_p e)) ≡ mk_p (G ^ e % P)
  unfolding g_pow_p
  g_pow_p-p e = pow_p-pp G e
