-- ===== src/Hash.antt =====
-- hash.py: hash_elems, over an abstract SHA-256; nonces.py: sequences of hashes of a seed.
pub mod Laws
use electionguard_python.Prelude.{
  ℕ, zero, suc, ◌+◌, ◌-◌, ◌*◌, ◌/◌, ◌%◌, ◌^◌, ◌<◌, ◌≡◌, Bool, true, false, Option, none, some, List,
  [], ◌∷◌, ◌++◌, ltb, if◌then◌else◌, arith, map,
}
use electionguard_python.Prelude.Int.{ℤ, pos, negsuc}
use electionguard_python.Prelude.Result.{Result, ok, raise, Error, type_error, ◌>>=◌}
use electionguard_python.Prelude.Digits.{Text, codes, digits, from_digits}
use electionguard_python.External.{Sha256}
use electionguard_python.Group.Constants.{Q_minus_one}
use electionguard_python.Group.{ElementModQ, ElementModP, mk_q}
use electionguard_python.Group.Hex.{to_hex_q, to_hex_p}

-- CRYPTO_HASHABLE_ALL: `hashed` is an object with a crypto_hash method, by what that returns.
mutual
  pub data Hashable : Type 0 where
    null : Hashable
    elem_p : ElementModP → Hashable
    elem_q : ElementModQ → Hashable
    hashed : ElementModQ → Hashable
    text : Text → Hashable
    int : ℤ → Hashable
    seq : Hashables → Hashable

  pub data Hashables : Type 0 where
    end : Hashables
    item : Hashable → Hashables → Hashables

-- str(x) of an integer.
pub decimal : ℤ → Text
decimal (pos n) = map (λ d. b'0' + d) (digits 10 n n)
decimal (negsuc n) = b'-' ∷ map (λ d. b'0' + d) (digits 10 (suc n) (suc n))

-- The UTF-8 bytes of a code point, and of a text.
utf8_char : ℕ → List ℕ
utf8_char c =
    if ltb c 0x80
    then c ∷ []
    else if ltb c 0x800
    then (0xc0 + c / 0x40) ∷ (0x80 + c % 0x40) ∷ []
    else if ltb c 0x10000
    then (0xe0 + c / 0x1000) ∷ (0x80 + c / 0x40 % 0x40) ∷ (0x80 + c % 0x40) ∷ []
    else (0xf0 + c / 0x40000)
      ∷ (0x80 + c / 0x1000 % 0x40)
      ∷ (0x80 + c / 0x40 % 0x40)
      ∷ (0x80 + c % 0x40)
      ∷ []

pub utf8 : Text → List ℕ
utf8 [] = []
utf8 (c ∷ cs) = utf8_char c ++ utf8 cs

-- int.from_bytes(digest, "big") % Q_MINUS_ONE
pub to_element : List ℕ → ElementModQ
to_element digest = mk_q (from_digits 256 0 digest % Q_minus_one)

module _ (sha256 : Sha256) where
  -- The digest of everything that `h.update` was given.
  pub finish : List ℕ → ElementModQ
  finish updates = to_element (sha256.digest (utf8 (b'|' ∷ []) ++ updates))

  -- The text for one argument, and the bytes that the arguments of a call add one after the other.
  mutual
    pub hash_me : Hashable → Text
    hash_me null = codes "null"
    hash_me (elem_p e) = to_hex_p e
    hash_me (elem_q e) = to_hex_q e
    hash_me (hashed h) = to_hex_q h
    hash_me (text []) = codes "null"
    hash_me (text (c ∷ cs)) = c ∷ cs
    hash_me (int (pos zero)) = codes "null"
    hash_me (int i) = decimal i
    hash_me (seq end) = codes "null"
    hash_me (seq (item x xs)) = to_hex_q (finish (hash_updates (item x xs)))

    pub hash_updates : Hashables → List ℕ
    hash_updates end = []
    hash_updates (item x xs) = utf8 (hash_me x ++ b'|' ∷ []) ++ hash_updates xs

  pub hash_elems : Hashables → ElementModQ
  hash_elems a = finish (hash_updates a)

-- range(start, stop, step), in at most `fuel` numbers.
range : ℕ → ℕ → ℕ → ℕ → List ℤ
range zero start stop step = []
range (suc fuel) start stop step = elim (ltb start stop) [
  | true ↦ pos start ∷ range fuel (start + step) stop step
  | false ↦ []
]

-- `value or default`: None and 0 give the default.
abbrev or_else : Option ℕ → ℕ → ℕ
or_else none default = default
or_else (some zero) default = default
or_else (some (suc n)) default = suc n

-- nonces.py: `headers` are texts or elements.
pub record Nonces : Type 0 where
  pub seed : ElementModQ

module _ (sha256 : Sha256) where
  unfoldable pub new_nonces : ElementModQ → Hashables → Nonces
  new_nonces seed end = record { seed = seed }
  new_nonces seed (item x xs) = record { seed = hash_elems sha256 (item (elem_q seed) (item x xs)) }

  unfoldable pub get_with_headers : Nonces → ℤ → Hashables → Result ElementModQ
  get_with_headers nonces (pos n) headers =
      ok (hash_elems sha256 (item (elem_q nonces.seed) (item (int (pos n)) headers)))
  get_with_headers nonces (negsuc n) headers = raise type_error

  -- nonces[index]
  unfoldable pub get_item : Nonces → ℤ → Result ElementModQ
  unfolding get_with_headers
  get_item nonces index = get_with_headers nonces index end

  -- [self[i] for i in indices]
  unfoldable pub get_items : Nonces → List ℤ → Result (List ElementModQ)
  unfolding get_item
  get_items nonces [] = ok []
  get_items nonces (i ∷ indices) = do
    nonce ← get_item nonces i
    rest ← get_items nonces indices
    ok (nonce ∷ rest)

  -- nonces[start:stop:step], for bounds that are not negative and a positive step.
  unfoldable pub get_slice : Nonces → Option ℕ → Option ℕ → Option ℕ → Result (List ElementModQ)
  unfolding get_items range
  get_slice nonces start none step = raise type_error
  get_slice nonces start (some stop) step =
      get_items nonces (range stop (or_else start 0) stop (or_else step 1))
