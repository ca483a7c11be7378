-- ===== src/Group/Bounds.antt =====
-- The ranges of the results of group.py, and the laws of its additive operations.
use native.Mathlib.Nat.{mod-eq_of_lt, mod_self, mod-add-mod, add-mod_right}
use electionguard_python.Prelude.{
  ℕ, ◌+◌, ◌-◌, ◌%◌, ◌<◌, ◌≡◌, ap, ◌∙◌, true, List, [], ◌∷◌, arith, lt→ltb, not,
}
use electionguard_python.Prelude.Int.{ℤ, pos, ◌+ℤ◌, ◌*ℤ◌, ◌%ℤ◌, in_range, %ℤ-in_range}
use electionguard_python.Group.Constants.{P, Q, one-lt-P, one-lt-Q}
use electionguard_python.Group.Elements.{is_in_bounds_q-mk, add_q-qq, a_minus_b_q-mk, negate_q-mk}
use electionguard_python.Group.Residues.{zero-lt-P, zero-lt-Q}
use electionguard_python.Group.{
  ElementModQ, ElementModPOrQorInt, of_q, value, mk_q, is_in_bounds_q, is_in_bounds_p, add_q,
  add_q_from, a_minus_b_q, negate_q, a_plus_bc_q, mult_from, mult_p, mult_q, eq_q, zero_mod_q,
}

add_q_from-in_range :
    (t : ℤ) (elems : List ElementModPOrQorInt)
    → in_range t Q ≡ true
    → in_range (add_q_from t elems) Q ≡ true
unfolding add_q_from
add_q_from-in_range t [] h = h
add_q_from-in_range t (e ∷ elems) h =
    add_q_from-in_range ((t +ℤ value e) %ℤ Q) elems (%ℤ-in_range (t +ℤ value e) Q zero-lt-Q)

mult_from-in_range :
    (m : ℕ) (t : ℤ) (elems : List ElementModPOrQorInt)
    → 0 < m
    → in_range t m ≡ true
    → in_range (mult_from m t elems) m ≡ true
unfolding mult_from
mult_from-in_range m t [] z h = h
mult_from-in_range m t (e ∷ elems) z h =
    mult_from-in_range m ((t *ℤ value e) %ℤ m) elems z (%ℤ-in_range (t *ℤ value e) m z)

-- Whatever integers they are given, in bounds or not and negative or not, the sums, differences and
-- products of elements are in bounds.
pub arithmetic_in_bounds :
    (a b c : ElementModPOrQorInt) (elems : List ElementModPOrQorInt)
    → (is_in_bounds_q (add_q elems) ≡ true)
      × (is_in_bounds_q (a_minus_b_q a b) ≡ true)
      × (is_in_bounds_q (a_plus_bc_q a b c) ≡ true)
      × (is_in_bounds_q (mult_q elems) ≡ true)
      × (is_in_bounds_p (mult_p elems) ≡ true)
unfolding is_in_bounds_q is_in_bounds_p add_q a_minus_b_q a_plus_bc_q mult_q mult_p
arithmetic_in_bounds a b c elems = (
  add_q_from-in_range (pos 0) elems (lt→ltb 0 Q zero-lt-Q),
  %ℤ-in_range _ Q zero-lt-Q,
  %ℤ-in_range _ Q zero-lt-Q,
  mult_from-in_range Q (pos 1) elems zero-lt-Q (lt→ltb 1 Q one-lt-Q),
  mult_from-in_range P (pos 1) elems zero-lt-P (lt→ltb 1 P one-lt-P),
)

negation_range : (n : ℕ) → n < Q → is_in_bounds_q (mk_q (Q - n)) ≡ not (eq_q (mk_q n) zero_mod_q)
unfolding is_in_bounds_q eq_q
negation_range n h = ground arith

-- The negation of an element in bounds adds to it to zero. It is itself in bounds exactly if the
-- element is not zero: at zero it is Q.
pub negate_q-add_q :
    (a : ElementModQ)
    → is_in_bounds_q a ≡ true
    → (add_q (of_q a ∷ of_q (negate_q (of_q a)) ∷ []) ≡ zero_mod_q)
      × (is_in_bounds_q (negate_q (of_q a)) ≡ not (eq_q a zero_mod_q))
negate_q-add_q a h =
    let (n, an, below) = is_in_bounds_q-mk a h in
    rw (an, negate_q-mk n (omega arith), add_q-qq n (Q - n))
      (ap mk_q (ap (λ t. t % Q) (omega arith) ∙ mod_self Q), negation_range n below)

cancel_right : (m n q : ℕ) → m < q → n < q → ((m + n) % q + (q - n)) % q ≡ m
cancel_right m n q hm hn =
    mod-add-mod (m + n) q (q - n)
    ∙ ap (λ t. t % q) (omega arith)
    ∙ add-mod_right m q
    ∙ mod-eq_of_lt hm

pub cancel_left : (m n q : ℕ) → m < q → n < q → ((m + (q - n)) % q + n) % q ≡ m
cancel_left m n q hm hn =
    mod-add-mod (m + (q - n)) q n
    ∙ ap (λ t. t % q) (omega arith)
    ∙ add-mod_right m q
    ∙ mod-eq_of_lt hm

-- Subtraction undoes addition, for elements in bounds.
a_minus_b_q-add_q :
    (a b : ElementModQ)
    → is_in_bounds_q a ≡ true
    → is_in_bounds_q b ≡ true
    → (a_minus_b_q (of_q (add_q (of_q a ∷ of_q b ∷ []))) (of_q b) ≡ a)
      × (add_q (of_q (a_minus_b_q (of_q a) (of_q b)) ∷ of_q b ∷ []) ≡ a)
a_minus_b_q-add_q a b ha hb =
    let (m, am, ma) = is_in_bounds_q-mk a ha in
    let (n, bn, nb) = is_in_bounds_q-mk b hb in
    rw
      (
        am,
        bn,
        add_q-qq m n,
        a_minus_b_q-mk ((m + n) % Q) n (omega arith),
        a_minus_b_q-mk m n (omega arith),
        add_q-qq ((m + (Q - n)) % Q) n,
      )
      (ap mk_q (cancel_right m n Q ma nb), ap mk_q (cancel_left m n Q ma nb))
