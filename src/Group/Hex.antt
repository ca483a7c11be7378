-- ===== src/Group/Hex.antt =====
-- Elements as hexadecimal text and as bytes: to_hex, to_bytes and hex_to_q of group.py.
pub mod RoundTrip
use electionguard_python.Prelude.{
  ℕ, zero, suc, ◌+◌, ◌-◌, ◌*◌, ◌/◌, ◌%◌, ◌≤◌, ◌<◌, ◌≡◌, refl, sym, ap, ◌∙◌, inl, inr, Bool, true,
  false, ◌&&◌, ◌||◌, Option, none, some, List, [], ◌∷◌, ◌++◌, map, arith, ltb, leb, ◌==◌,
  if◌then◌else◌, Bool-cases, length, all,
}
use mathlib.Core.Option
use electionguard_python.Prelude.Int.{ℤ, pos, negsuc, ◌-ℤ◌}
use electionguard_python.Prelude.Result.{Result, ok, raise, Error, value_error, ◌>>=◌}
use electionguard_python.Prelude.Digits.{
  Text, digits, from_digits, from_digits-digits, digits-Below,
}
use electionguard_python.Group.{ElementModQ, ElementModP, int_to_q}

-- An upper-case hexadecimal digit.
pub hex_digit : ℕ → ℕ
hex_digit d = if ltb d 10 then b'0' + d else b'A' + (d - 10)

hex_digits : ℕ → Text
hex_digits n = map hex_digit (digits 16 n n)

-- A leading zero where the length is odd.
pad_even : Text → Text
pad_even h = if length h % 2 == 0 then h else b'0' ∷ h

-- format(elem, "02X"): upper-case digits after a sign, filled with zeros to two characters.
format_02x : ℤ → Text
format_02x (pos n) = let h = hex_digits n in if length h == 1 then b'0' ∷ h else h
format_02x (negsuc n) = b'-' ∷ hex_digits (suc n)

pub to_hex_q : ElementModQ → Text
to_hex_q e = pad_even (format_02x e.elem)

pub to_hex_p : ElementModP → Text
to_hex_p e = pad_even (format_02x e.elem)

-- The value of a hexadecimal digit of either case.
pub digit_value : ℕ → Option ℕ
digit_value c =
    if leb b'0' c && leb c b'9'
    then some (c - b'0')
    else if leb b'A' c && leb c b'F'
    then some (c - b'A' + 10)
    else if leb b'a' c && leb c b'f'
    then some (c - b'a' + 10)
    else none

abbrev or_value_error : {A : Type 0} → Option A → Result A
or_value_error none = raise value_error
or_value_error (some v) = ok v

-- An upper-case digit: lower case is refused.
upper_value : ℕ → Option ℕ
upper_value c = if leb b'a' c then none else digit_value c

-- base64.b16decode: two upper-case digits to a byte, else a ValueError.
pub b16decode : Text → Result (List ℕ)
b16decode [] = ok []
b16decode (c ∷ []) = raise value_error
b16decode (c ∷ d ∷ rest) = do
  hi ← or_value_error (upper_value c)
  lo ← or_value_error (upper_value d)
  bytes ← b16decode rest
  ok ((hi * 16 + lo) ∷ bytes)

pub to_bytes : ElementModQ → Result (List ℕ)
to_bytes e = b16decode (to_hex_q e)

-- ASCII white space, which int() skips at both ends.
is_space : ℕ → Bool
is_space c = c == 32 || (leb 9 c && leb c 13) || (leb 28 c && leb c 31)

skip_spaces : Text → Text
skip_spaces [] = []
skip_spaces (c ∷ rest) = if is_space c then skip_spaces rest else c ∷ rest

-- The digits of int(text, 16), which single underscores may separate, and then white space.
mutual
  read_digits : ℕ → Text → Option ℕ
  read_digits acc [] = some acc
  read_digits acc (c ∷ rest) = elim (digit_value c) [
    | some d ↦ read_digits (acc * 16 + d) rest
    | none ↦
        let next = read_first acc rest in
        if c == b'_' then next else if all is_space (c ∷ rest) then some acc else none
  ]

  read_first : ℕ → Text → Option ℕ
  read_first acc [] = none
  read_first acc (c ∷ rest) = elim (digit_value c) [
    | some d ↦ read_digits (acc * 16 + d) rest
    | none ↦ none
  ]

after_prefix : Text → Option ℕ
after_prefix [] = none
after_prefix (c ∷ rest) = if c == b'_' then read_first 0 rest else read_first 0 (c ∷ rest)

-- An optional prefix 0x or 0X, after which one underscore may stand.
read_prefixed : Text → Option ℕ
read_prefixed (zero_char ∷ x ∷ rest) =
    if zero_char == b'0' && (x == b'x' || x == b'X')
    then after_prefix rest
    else read_first 0 (zero_char ∷ x ∷ rest)
read_prefixed text = read_first 0 text

signed : Text → Option ℤ
signed [] = none
signed (c ∷ rest) =
    if c == b'-'
    then Option.map (λ n. pos 0 -ℤ pos n) (read_prefixed rest)
    else if c == b'+'
    then Option.map (λ n. pos n) (read_prefixed rest)
    else Option.map (λ n. pos n) (read_prefixed (c ∷ rest))

-- int(input, 16) on ASCII text.
pub int_16 : Text → Result ℤ
int_16 input = or_value_error (signed (skip_spaces input))

pub hex_to_q : Text → Result (Option ElementModQ)
hex_to_q input = do i ← int_16 input; ok (int_to_q i)
