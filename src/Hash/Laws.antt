-- ===== src/Hash/Laws.antt =====
-- What hash_elems of hash.py tells apart, and the range of its results.
use native.Mathlib.Nat.{mod-lt, mod-eq_of_lt}
use mathlib.Core.List.{append_assoc}
use electionguard_python.Prelude.{
  none, some, ℕ, ◌<◌, ◌≡◌, refl, sym, ap, ◌∙◌, true, List, [], ◌∷◌, ◌++◌, arith,
}
use electionguard_python.Prelude.Int.{pos}
use electionguard_python.Prelude.Result.{ok}
use electionguard_python.Prelude.Digits.{Text, from_digits}
use electionguard_python.External.{Sha256}
use electionguard_python.Group.Constants.{Q, Q_minus_one, Q_minus_one_lem, one-lt-Q}
use electionguard_python.Group.{ElementModQ, mk_q, is_in_bounds_q}
use electionguard_python.Group.Elements.{mk_q-is_in_bounds_q}
use electionguard_python.Hash.{
  get_slice, Hashable, Hashables, null, elem_q, hashed, text, int, seq, end, item, utf8, utf8_char,
  to_element, finish, hash_me, hash_updates, hash_elems, Nonces, get_item,
}

-- The arguments of a call with some put in front.
abbrev pub prepend : List Hashable → Hashables → Hashables
prepend [] xs = xs
prepend (y ∷ ys) xs = item y (prepend ys xs)

utf8-append : (xs ys : Text) → utf8 (xs ++ ys) ≡ utf8 xs ++ utf8 ys
unfolding utf8
utf8-append [] ys = refl
utf8-append (x ∷ xs) ys =
    ap (λ t. utf8_char x ++ t) (utf8-append xs ys)
    ∙ sym (append_assoc (utf8_char x) (utf8 xs) (utf8 ys))

Q_minus_one_pos : 0 < Q_minus_one
Q_minus_one_pos = omega (arith, Q_minus_one_lem, one-lt-Q)

module _ (sha256 : Sha256) where
  -- A hash holds a natural number below Q - 1.
  pub hash_elems-mk :
      (xs : Hashables) → (n : ℕ) × (hash_elems sha256 xs ≡ mk_q n) × (n < Q_minus_one)
  unfolding hash_elems finish to_element
  hash_elems-mk xs = (_, refl, mod-lt _ Q_minus_one_pos)

  pub hash_elems-in_Q : (xs : Hashables) → (n : ℕ) × (hash_elems sha256 xs ≡ mk_q n) × (n < Q)
  hash_elems-in_Q xs =
      let (n, e, below) = hash_elems-mk xs in (n, e, omega (arith, Q_minus_one_lem))

  -- Where every digest is one byte of value n, so is every hash.
  pub hash_elems-digest :
      (n : ℕ)
      → ((bytes : List ℕ) → sha256.digest bytes ≡ n ∷ [])
      → n < Q_minus_one
      → (xs : Hashables) → hash_elems sha256 xs ≡ mk_q n
  unfolding hash_elems finish to_element from_digits
  hash_elems-digest n h below xs =
      ap to_element (h _) ∙ ap mk_q (mod-eq_of_lt (omega (arith, below)) ∙ omega arith)

  -- A hash is in bounds.
  pub hash_elems-is_in_bounds : (xs : Hashables) → is_in_bounds_q (hash_elems sha256 xs) ≡ true
  hash_elems-is_in_bounds xs =
      let (n, e, below) = hash_elems-mk xs in
      rw e (mk_q-is_in_bounds_q n (omega (arith, Q_minus_one_lem)))

  -- Arguments that add the same bytes may stand for one another.
  hash_updates-prepend :
      (before : List Hashable) (xs ys : Hashables)
      → hash_updates sha256 xs ≡ hash_updates sha256 ys
      → hash_updates sha256 (prepend before xs) ≡ hash_updates sha256 (prepend before ys)
  unfolding hash_updates
  hash_updates-prepend [] xs ys h = h
  hash_updates-prepend (y ∷ before) xs ys h =
      ap (λ t. utf8 (hash_me sha256 y ++ b'|' ∷ []) ++ t) (hash_updates-prepend before xs ys h)

  hash_elems_cong :
      (before : List Hashable) (xs ys : Hashables)
      → hash_updates sha256 xs ≡ hash_updates sha256 ys
      → hash_elems sha256 (prepend before xs) ≡ hash_elems sha256 (prepend before ys)
  unfolding hash_elems
  hash_elems_cong before xs ys h = ap (finish sha256) (hash_updates-prepend before xs ys h)

  -- Wherever it stands, no argument is told apart from an empty text, an empty list and the number 0.
  pub hash_elems_falsy :
      (before : List Hashable) (after : Hashables)
      → let with_null = hash_elems sha256 (prepend before (item null after)) in
        (hash_elems sha256 (prepend before (item (text []) after)) ≡ with_null)
        × (hash_elems sha256 (prepend before (item (seq end) after)) ≡ with_null)
        × (hash_elems sha256 (prepend before (item (int (pos 0)) after)) ≡ with_null)
  unfolding hash_updates hash_me
  hash_elems_falsy before after = (
    hash_elems_cong before (item (text []) after) (item null after) refl,
    hash_elems_cong before (item (seq end) after) (item null after) refl,
    hash_elems_cong before (item (int (pos 0)) after) (item null after) refl,
  )

  -- A list that is not empty is hashed as an object whose crypto_hash is the hash of its items.
  hash_elems-seq :
      (before : List Hashable) (x : Hashable) (xs after : Hashables)
      → hash_elems sha256 (prepend before (item (seq (item x xs)) after))
        ≡ hash_elems sha256 (prepend before (item (hashed (hash_elems sha256 (item x xs))) after))
  unfolding hash_updates hash_me hash_elems
  hash_elems-seq before x xs after =
      hash_elems_cong before (item (seq (item x xs)) after)
        (item (hashed (hash_elems sha256 (item x xs))) after) refl

  -- The separator is not escaped: one text with a bar inside hashes as the two texts around it.
  pub hash_elems_bar :
      (before : List Hashable) (after : Hashables) (c d : ℕ) (s t : Text)
      → hash_elems sha256 (prepend before (item (text (c ∷ s ++ b'|' ∷ d ∷ t)) after))
        ≡ hash_elems sha256 (prepend before (item (text (c ∷ s)) (item (text (d ∷ t)) after)))
  unfolding hash_updates hash_me
  hash_elems_bar before after c d s t = hash_elems_cong before _ _ (
      ap (λ u. u ++ hash_updates sha256 after)
        (ap utf8 (
            append_assoc (c ∷ s) (b'|' ∷ d ∷ t) (b'|' ∷ [])
            ∙ sym (append_assoc (c ∷ s) (b'|' ∷ []) ((d ∷ t) ++ b'|' ∷ [])))
          ∙ utf8-append ((c ∷ s) ++ b'|' ∷ []) ((d ∷ t) ++ b'|' ∷ []))
      ∙ append_assoc (utf8 ((c ∷ s) ++ b'|' ∷ [])) (utf8 ((d ∷ t) ++ b'|' ∷ []))
          (hash_updates sha256 after))

  -- The nonce at an index.
  pub nonce : Nonces → ℕ → ElementModQ
  nonce nonces i = hash_elems sha256 (item (elem_q nonces.seed) (item (int (pos i)) end))

  pub nonce_at : (nonces : Nonces) (i : ℕ) → get_item sha256 nonces (pos i) ≡ ok (nonce nonces i)
  unfolding get_item nonce
  nonce_at nonces i = refl

  pub nonce-in_Q : (nonces : Nonces) (i : ℕ) → (n : ℕ) × (nonce nonces i ≡ mk_q n) × (n < Q)
  unfolding nonce
  nonce-in_Q nonces i = hash_elems-in_Q _

  -- The first three nonces, as a slice.
  pub first_three :
      (nonces : Nonces)
      → get_slice sha256 nonces (some 0) (some 3) none
        ≡ ok (nonce nonces 0 ∷ nonce nonces 1 ∷ nonce nonces 2 ∷ [])
  unfolding get_slice nonce
  first_three nonces = refl
