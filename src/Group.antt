-- ===== src/Group.antt =====
-- group.py: elements modulo the two primes of ElectionGuard, and their arithmetic.
-- An element holds any integer (mpz): the unchecked constructors do not look at its range.
pub mod Constants
pub mod Elements
pub mod Residues
pub mod Hex
pub mod Bounds
pub mod Inverse
pub mod Equations
use electionguard_python.Prelude.{
  ℕ, zero, suc, ◌+◌, ◌-◌, ◌%◌, ◌≡◌, Bool, true, false, ◌&&◌, Option, none, some, List, [], ◌∷◌, ltb,
  if◌then◌else◌,
}
use electionguard_python.Prelude.Int.{ℤ, pos, negsuc, ◌+ℤ◌, ◌-ℤ◌, ◌*ℤ◌, ◌%ℤ◌, ◌==ℤ◌, in_range}
use electionguard_python.Prelude.Result.{Result, ok, raise, Error, ◌>>=◌}
use electionguard_python.External.{Gmp}
use Constants.{P, Q, G}

pub record ElementModQ : Type 0 where
  pub elem : ℤ

pub record ElementModP : Type 0 where
  pub elem : ℤ

-- The arguments that the arithmetic takes.
pub data ElementModPOrQorInt : Type 0 where
  of_p : ElementModP → ElementModPOrQorInt
  of_q : ElementModQ → ElementModPOrQorInt
  of_int : ℤ → ElementModPOrQorInt

-- What `int_to_p_unchecked` or `int_to_q_unchecked` leaves of an argument: its integer.
abbrev pub value : ElementModPOrQorInt → ℤ
value (of_p e) = e.elem
value (of_q e) = e.elem
value (of_int i) = i

-- An element from a natural number, unchecked.
abbrev pub mk_q : ℕ → ElementModQ
mk_q n = record { elem = pos n }

abbrev pub mk_p : ℕ → ElementModP
mk_p n = record { elem = pos n }

abbrev pub zero_mod_q : ElementModQ
zero_mod_q = mk_q 0

abbrev pub two_mod_q : ElementModQ
two_mod_q = mk_q 2

abbrev pub one_mod_p : ElementModP
one_mod_p = mk_p 1

unfoldable pub is_in_bounds_q : ElementModQ → Bool
is_in_bounds_q e = in_range e.elem Q

unfoldable pub is_in_bounds_no_zero_q : ElementModQ → Bool
is_in_bounds_no_zero_q e = elim e.elem [
  | pos zero ↦ false
  | pos (suc n) ↦ ltb (suc n) Q
  | negsuc n ↦ false
]

unfoldable pub is_in_bounds_p : ElementModP → Bool
is_in_bounds_p e = in_range e.elem P

unfoldable pub is_in_bounds_no_zero_p : ElementModP → Bool
is_in_bounds_no_zero_p e = elim e.elem [
  | pos zero ↦ false
  | pos (suc n) ↦ ltb (suc n) P
  | negsuc n ↦ false
]

unfoldable pub eq_elems : ElementModPOrQorInt → ElementModPOrQorInt → Bool
eq_elems a b = value a ==ℤ value b

-- ElementModP.__eq__ and ElementModQ.__eq__ between two elements of one kind.
unfoldable pub eq_p : ElementModP → ElementModP → Bool
unfolding eq_elems
eq_p a b = eq_elems (of_p a) (of_p b)

unfoldable pub eq_q : ElementModQ → ElementModQ → Bool
unfolding eq_elems
eq_q a b = eq_elems (of_q a) (of_q b)

unfoldable pub int_to_q : ℤ → Option ElementModQ
int_to_q i = if in_range i Q then some (record { elem = i }) else none

unfoldable pub int_to_p : ℤ → Option ElementModP
int_to_p i = if in_range i P then some (record { elem = i }) else none

abbrev pub int_to_q_unchecked : ℤ → ElementModQ
int_to_q_unchecked i = record { elem = i }

abbrev pub int_to_p_unchecked : ℤ → ElementModP
int_to_p_unchecked i = record { elem = i }

-- The loop of add_q, from the total so far.
unfoldable pub add_q_from : ℤ → List ElementModPOrQorInt → ℤ
add_q_from t [] = t
add_q_from t (e ∷ elems) = add_q_from ((t +ℤ value e) %ℤ Q) elems

unfoldable pub add_q : List ElementModPOrQorInt → ElementModQ
unfolding add_q_from
add_q elems = record { elem = add_q_from (pos 0) elems }

unfoldable pub a_minus_b_q : ElementModPOrQorInt → ElementModPOrQorInt → ElementModQ
a_minus_b_q a b = record { elem = (value a -ℤ value b) %ℤ Q }

unfoldable pub negate_q : ElementModPOrQorInt → ElementModQ
negate_q a = record { elem = pos Q -ℤ value a }

unfoldable pub a_plus_bc_q :
    ElementModPOrQorInt → ElementModPOrQorInt → ElementModPOrQorInt → ElementModQ
a_plus_bc_q a b c = record { elem = (value a +ℤ value b *ℤ value c) %ℤ Q }

-- The loops of mult_p and mult_q, from the product so far.
unfoldable pub mult_from : ℕ → ℤ → List ElementModPOrQorInt → ℤ
mult_from m product [] = product
mult_from m product (x ∷ elems) = mult_from m ((product *ℤ value x) %ℤ m) elems

unfoldable pub mult_p : List ElementModPOrQorInt → ElementModP
unfolding mult_from
mult_p elems = record { elem = mult_from P (pos 1) elems }

unfoldable pub mult_q : List ElementModPOrQorInt → ElementModQ
unfolding mult_from
mult_q elems = record { elem = mult_from Q (pos 1) elems }

module _ (gmp : Gmp) where
  unfoldable pub pow_p : ElementModPOrQorInt → ElementModPOrQorInt → ElementModP
  pow_p b e = record { elem = gmp.powmod (value b) (value e) P }

  unfoldable pub pow_q : ElementModPOrQorInt → ElementModPOrQorInt → ElementModQ
  pow_q b e = record { elem = gmp.powmod (value b) (value e) Q }

  unfoldable pub g_pow_p : ElementModPOrQorInt → ElementModP
  g_pow_p e = pow_p (of_p (mk_p G)) e

  unfoldable pub is_valid_residue : ElementModP → Bool
  is_valid_residue e = is_in_bounds_p e && eq_p (pow_p (of_p e) (of_q (mk_q Q))) one_mod_p

  unfoldable pub mult_inv_p : ElementModPOrQorInt → Result ElementModP
  mult_inv_p e =
      if value e ==ℤ pos 0
      then raise Error.assertion_error
      else do inverse ← gmp.invert (value e) P; ok (record { elem = inverse })

  unfoldable pub div_p : ElementModPOrQorInt → ElementModPOrQorInt → Result ElementModP
  div_p a b = do inverse ← gmp.invert (value b) P; ok (mult_p (a ∷ of_int inverse ∷ []))

  unfoldable pub div_q : ElementModPOrQorInt → ElementModPOrQorInt → Result ElementModQ
  div_q a b = do inverse ← gmp.invert (value b) Q; ok (mult_q (a ∷ of_int inverse ∷ []))

  pub q_to_bytes : ElementModQ → List ℕ
  q_to_bytes e = gmp.to_binary e.elem

  pub bytes_to_q : List ℕ → ElementModQ
  bytes_to_q b = record { elem = gmp.from_binary b }

-- What randbelow(Q) returns is an argument.
abbrev pub rand_q : ℕ → ElementModQ
rand_q drawn = mk_q drawn

-- The loop of rand_range_q, over the numbers that randbelow(Q) returns one after the other.
unfoldable pub rand_range_from : ℕ → ℕ → List ℕ → Result ElementModQ
rand_range_from start random [] =
    if ltb random start then raise Error.still_running else ok (mk_q random)
rand_range_from start random (drawn ∷ draws) =
    let rest = rand_range_from start drawn draws in
    if ltb random start then rest else ok (mk_q random)

unfoldable pub rand_range_q : ℕ → List ℕ → Result ElementModQ
unfolding rand_range_from
rand_range_q start draws = rand_range_from start 0 draws
