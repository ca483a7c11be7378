-- ===== src/Prelude/Result.antt =====
-- Calls that may raise: the exceptions that the modelled code raises, and the chain of such calls.
use mathlib.Core.Option.{Option, none, some}

pub data Error : Type 0 where
  assertion_error zero_division_error type_error index_error key_error value_error : Error
  -- not an exception: a loop of the code that is still running when the fuel is spent
  still_running : Error

pub data Result {ℓ} (A : Type ℓ) : Type ℓ where
  ok : A → Result A
  raise : Error → Result A

infixl 5 ◌>>=◌ ◌>>◌
abbrev pub ◌>>=◌ {ℓ κ} : {A : Type ℓ} {B : Type κ} → Result A → (A → Result B) → Result B
ok a >>= f = f a
raise e >>= f = raise e

abbrev pub ◌>>◌ {ℓ} : {B : Type ℓ} → Result (Unit {0}) → Result B → Result B
m >> k = m >>= λ _. k

-- utils.get_optional: unwraps, or fails its assertion.
abbrev pub get_optional {ℓ} : {A : Type ℓ} → Option A → Result A
get_optional none = raise assertion_error
get_optional (some a) = ok a

-- utils.flatmap_optional with a mapper that cannot be None.
abbrev pub flatmap_optional {ℓ κ} : {A : Type ℓ} {B : Type κ} → Option A → (A → Option B) → Option B
flatmap_optional none f = none
flatmap_optional (some a) f = f a

-- An entry of a dict that must be there.
abbrev pub get_or_key_error {ℓ} : {A : Type ℓ} → Option A → Result A
get_or_key_error none = raise key_error
get_or_key_error (some a) = ok a

-- A call that may return None, and what follows where it does not.
abbrev pub if_some {ℓ κ} :
    {A : Type ℓ} {B : Type κ} → Result (Option A) → (A → Result (Option B)) → Result (Option B)
if_some (raise e) f = raise e
if_some (ok none) f = ok none
if_some (ok (some a)) f = f a
