-- ===== src/Examples/Arithmetic.antt =====
-- Examples for the arithmetic of the group and the hash, at small numbers.
use electionguard_python.Prelude.{◌≡◌, true, [], ◌∷◌, not}
use electionguard_python.Prelude.Int.{pos, negsuc}
use electionguard_python.Group.{
  of_p, of_q, of_int, mk_q, zero_mod_q, is_in_bounds_q, is_in_bounds_p, eq_q, add_q, a_minus_b_q,
  a_plus_bc_q, negate_q, mult_q, mult_p, pow_p, g_pow_p, is_valid_residue,
}
use electionguard_python.Group.Bounds.{arithmetic_in_bounds, negate_q-add_q}
use electionguard_python.Group.Residues.{residues_closed, pow_p-add_q}
use electionguard_python.Hash.{null, text, int, seq, end, item, hash_elems}
use electionguard_python.Hash.Laws.{hash_elems_falsy, hash_elems_bar}
use electionguard_python.Examples.StandIns.{gmp, gmp_laws, sha256}
use electionguard_python.Examples.Crypto.{pair, key-is_valid_residue, two-in_bounds, zero-in_bounds}

arithmetic_in_bounds_example :
    (is_in_bounds_q (add_q (of_int (negsuc 4) ∷ [])) ≡ true)
    × (is_in_bounds_q (a_minus_b_q (of_int (pos 3)) (of_int (pos 5))) ≡ true)
    × (is_in_bounds_q (a_plus_bc_q (of_int (pos 3)) (of_int (pos 5)) (of_int (negsuc 0))) ≡ true)
    × (is_in_bounds_q (mult_q (of_int (negsuc 4) ∷ [])) ≡ true)
    × (is_in_bounds_p (mult_p (of_int (negsuc 4) ∷ [])) ≡ true)
arithmetic_in_bounds_example =
    arithmetic_in_bounds (of_int (pos 3)) (of_int (pos 5)) (of_int (negsuc 0))
      (of_int (negsuc 4) ∷ [])

-- The negation of zero is Q, which is out of bounds.
negate_q-add_q_example :
    (add_q (of_q zero_mod_q ∷ of_q (negate_q (of_q zero_mod_q)) ∷ []) ≡ zero_mod_q)
    × (is_in_bounds_q (negate_q (of_q zero_mod_q)) ≡ not (eq_q zero_mod_q zero_mod_q))
negate_q-add_q_example = negate_q-add_q zero_mod_q zero-in_bounds

residues_closed_example :
    (is_valid_residue gmp (mult_p (of_p pair.public_key ∷ of_p pair.public_key ∷ [])) ≡ true)
    × (is_valid_residue gmp (pow_p gmp (of_p pair.public_key) (of_q (mk_q 2))) ≡ true)
    × (is_valid_residue gmp (g_pow_p gmp (of_q (mk_q 2))) ≡ true)
residues_closed_example =
    residues_closed gmp_laws pair.public_key pair.public_key (mk_q 2) key-is_valid_residue
      key-is_valid_residue two-in_bounds

pow_p-add_q_example :
    (pow_p gmp (of_p pair.public_key) (of_q (add_q (of_q (mk_q 2) ∷ of_q (mk_q 2) ∷ [])))
      ≡ mult_p (
          of_p (pow_p gmp (of_p pair.public_key) (of_q (mk_q 2)))
          ∷ of_p (pow_p gmp (of_p pair.public_key) (of_q (mk_q 2)))
          ∷ []))
    × (g_pow_p gmp (of_q (add_q (of_q (mk_q 2) ∷ of_q (mk_q 2) ∷ [])))
        ≡ mult_p (of_p (g_pow_p gmp (of_q (mk_q 2))) ∷ of_p (g_pow_p gmp (of_q (mk_q 2))) ∷ []))
pow_p-add_q_example =
    pow_p-add_q gmp_laws pair.public_key (mk_q 2) (mk_q 2) key-is_valid_residue two-in_bounds
      two-in_bounds

hash_elems_falsy_example :
    (hash_elems sha256 (item (text (97 ∷ [])) (item (text []) end))
      ≡ hash_elems sha256 (item (text (97 ∷ [])) (item null end)))
    × (hash_elems sha256 (item (text (97 ∷ [])) (item (seq end) end))
        ≡ hash_elems sha256 (item (text (97 ∷ [])) (item null end)))
    × (hash_elems sha256 (item (text (97 ∷ [])) (item (int (pos 0)) end))
        ≡ hash_elems sha256 (item (text (97 ∷ [])) (item null end)))
hash_elems_falsy_example = hash_elems_falsy sha256 (text (97 ∷ []) ∷ []) end

-- "a|b" and the two texts "a" and "b".
hash_elems_bar_example :
    hash_elems sha256 (item (text (97 ∷ b'|' ∷ 98 ∷ [])) end)
    ≡ hash_elems sha256 (item (text (97 ∷ [])) (item (text (98 ∷ [])) end))
hash_elems_bar_example = hash_elems_bar sha256 [] end 97 98 [] []
