-- ===== src/Group/Hex/RoundTrip.antt =====
-- Text printed by to_hex is read back by hex_to_q and decoded by to_bytes (group.py).
use electionguard_python.Prelude.{
  ℕ, ◌+◌, ◌*◌, ◌<◌, ◌≡◌, refl, sym, ap, subst, ◌∙◌, Bool, true, false, some, List, [], ◌∷◌, map,
  arith, leb, ◌==◌, if◌then◌else◌, lt→ltb, length,
}
use electionguard_python.Prelude.Int.{pos}
use electionguard_python.Prelude.Result.{ok}
use electionguard_python.Prelude.Digits.{
  Text, Below, from_digits, from_digits-digits, digits-Below, digits-cons,
}
use electionguard_python.Group.Constants.{Q}
use electionguard_python.Group.Elements.{is_in_bounds_q-mk}
use electionguard_python.Group.{ElementModQ, mk_q, int_to_q, is_in_bounds_q}
use electionguard_python.Group.Hex.{
  hex_digit, hex_digits, pad_even, format_02x, to_hex_q, digit_value, read_digits, read_first,
  read_prefixed, signed, skip_spaces, is_space, int_16, hex_to_q,
}

-- What reads a character as a digit, and does not take it for white space, a sign or an `x`.
abbrev Reads : ℕ → ℕ → Type 0
Reads c d =
    (digit_value c ≡ some d)
    × (is_space c ≡ false)
    × ((c == b'-') ≡ false)
    × ((c == b'+') ≡ false)
    × ((c == b'x') ≡ false)
    × ((c == b'X') ≡ false)

-- The lower case of a hexadecimal digit, in which bytes.hex prints it.
abbrev pub lower_case : ℕ → ℕ
lower_case c = if leb b'A' c then c + 32 else c

hex_digit-Reads : (d : ℕ) → d < 16 → Reads (hex_digit d) d
unfolding digit_value hex_digit is_space
hex_digit-Reads d h = ground arith

lower_case-Reads : (d : ℕ) → d < 16 → Reads (lower_case (hex_digit d)) d
unfolding digit_value hex_digit is_space
lower_case-Reads d h = ground arith

module _ (show : ℕ → ℕ) (shows : (d : ℕ) → d < 16 → Reads (show d) d) where
  read_digits-map :
      (acc : ℕ) (ds : List ℕ)
      → Below 16 ds
      → read_digits acc (map show ds) ≡ some (from_digits 16 acc ds)
  unfolding read_digits from_digits
  read_digits-map acc [] h = refl
  read_digits-map acc (d ∷ ds) h =
      rw ((shows d h.0).0, read_digits) (read_digits-map (acc * 16 + d) ds h.1)

  read_first-map :
      (d : ℕ) (ds : List ℕ)
      → Below 16 (d ∷ ds)
      → read_first 0 (map show (d ∷ ds)) ≡ some (from_digits 16 0 (d ∷ ds))
  unfolding read_first from_digits
  read_first-map d ds h = rw ((shows d h.0).0, read_first) (read_digits-map (0 * 16 + d) ds h.1)

  read_prefixed-map :
      (d : ℕ) (ds : List ℕ)
      → Below 16 (d ∷ ds)
      → read_prefixed (map show (d ∷ ds)) ≡ some (from_digits 16 0 (d ∷ ds))
  unfolding read_prefixed
  read_prefixed-map d [] h = read_first-map d [] h
  read_prefixed-map d (x ∷ ds) h = ground (arith, shows x h.1.0, read_first-map d (x ∷ ds) h)

  int_16-map :
      (d : ℕ) (ds : List ℕ)
      → Below 16 (d ∷ ds)
      → int_16 (map show (d ∷ ds)) ≡ ok (pos (from_digits 16 0 (d ∷ ds)))
  unfolding int_16 signed skip_spaces
  int_16-map d ds h = ground (arith, shows d h.0, read_prefixed-map d ds h)

map-map :
    (show : ℕ → ℕ) (ds : List ℕ) → map lower_case (map show ds) ≡ map (λ d. lower_case (show d)) ds
map-map show [] = refl
map-map show (d ∷ ds) = ap (λ t. lower_case (show d) ∷ t) (map-map show ds)

-- The text is a list of upper-case digits that stand for the number.
record Spells (n : ℕ) (text : Text) : Type 0 where
  first : ℕ
  others : List ℕ
  shown : text ≡ map hex_digit (first ∷ others)
  below : Below 16 (first ∷ others)
  stands : from_digits 16 0 (first ∷ others) ≡ n

Spells-hex_digits : (n : ℕ) → Spells n (hex_digits n)
unfolding hex_digits
Spells-hex_digits n =
    let (d, ds, e) = digits-cons 16 n n in
    record {
      first = d;
      others = ds;
      shown = ap (map hex_digit) e;
      below = subst (Below 16) e (digits-Below 16 n n (omega arith) (omega arith));
      stands = ap (from_digits 16 0) (sym e) ∙ from_digits-digits 16 n n (omega arith);
    }

Spells-zero : (n : ℕ) (text : Text) → Spells n text → Spells n (b'0' ∷ text)
unfolding hex_digit from_digits
Spells-zero n text s = record {
  first = 0;
  others = s.first ∷ s.others;
  shown = ap (λ t. b'0' ∷ t) s.shown;
  below = (omega arith, s.below);
  stands = s.stands;
}

Spells-if :
    (n : ℕ) (s t : Text) (b : Bool) → Spells n s → Spells n t → Spells n (if b then s else t)
Spells-if n s t true hs ht = hs
Spells-if n s t false hs ht = ht

to_hex_q-Spells : (n : ℕ) → Spells n (to_hex_q (mk_q n))
unfolding to_hex_q format_02x pad_even
to_hex_q-Spells n =
    let h = Spells-hex_digits n in
    let padded = Spells-if n _ _ (length (hex_digits n) == 1) (Spells-zero n _ h) h in
    Spells-if n _ _ _ padded (Spells-zero n _ padded)

hex_to_q-Spells :
    (n : ℕ) (text : Text)
    → Spells n text
    → (hex_to_q text ≡ ok (int_to_q (pos n)))
      × (hex_to_q (map lower_case text) ≡ ok (int_to_q (pos n)))
unfolding hex_to_q
hex_to_q-Spells n text s = (
  rw (s.shown, int_16-map hex_digit hex_digit-Reads s.first s.others s.below, s.stands) refl,
  rw (s.shown, map-map hex_digit (s.first ∷ s.others))
      (rw
        (
          int_16-map (λ d. lower_case (hex_digit d)) lower_case-Reads s.first s.others s.below,
          s.stands,
        )
        refl),
)

hex_to_q-mk :
    (n : ℕ)
    → n < Q
    → (hex_to_q (to_hex_q (mk_q n)) ≡ ok (some (mk_q n)))
      × (hex_to_q (map lower_case (to_hex_q (mk_q n))) ≡ ok (some (mk_q n)))
unfolding int_to_q
hex_to_q-mk n h =
    let (upper, lower) = hex_to_q-Spells n _ (to_hex_q-Spells n) in
    let found = ap ok (rw (lt→ltb n Q h)) in (upper ∙ found, lower ∙ found)

-- The hexadecimal text of an element in bounds is read back as that element.
pub hex_to_q-to_hex_q :
    (e : ElementModQ) → is_in_bounds_q e ≡ true → hex_to_q (to_hex_q e) ≡ ok (some e)
hex_to_q-to_hex_q e h = let (n, en, below) = is_in_bounds_q-mk e h in rw en (hex_to_q-mk n below).0

-- So is its text in lower case.
pub hex_to_q-lower_case :
    (e : ElementModQ)
    → is_in_bounds_q e ≡ true
    → hex_to_q (map lower_case (to_hex_q e)) ≡ ok (some e)
hex_to_q-lower_case e h =
    let (n, en, below) = is_in_bounds_q-mk e h in rw en (hex_to_q-mk n below).1
