-- ===== src/Dlog.antt =====
-- dlog.py: the discrete logarithm to base G with its cache. The module's globals are a state that
-- each call takes and returns; the lock makes calls follow one another.
pub mod Laws
use electionguard_python.Prelude.{
  ℕ, zero, suc, ◌+◌, ◌≡◌, Bool, true, false, Option, none, some, List, [], ◌∷◌, if◌then◌else◌,
}
use electionguard_python.Prelude.Int.{pos}
use electionguard_python.Prelude.Result.{Result, ok, raise, still_running, get_or_key_error}
use electionguard_python.Group.Constants.{G}
use electionguard_python.Group.{ElementModP, of_p, mk_p, one_mod_p, eq_p, mult_p}

pub record Dlog : Type 0 where
  pub cache : List (ElementModP × ℕ)
  pub max_elem : ElementModP
  pub max_exp : ℕ

unfoldable pub initial : Dlog
initial = record { cache = (one_mod_p, 0) ∷ []; max_elem = one_mod_p; max_exp = 0 }

-- The cache is a dict: a lookup, and an assignment, which replaces the value of a key that is there.
unfoldable pub lookup : ElementModP → List (ElementModP × ℕ) → Option ℕ
lookup e [] = none
lookup e ((k, v) ∷ rest) = if eq_p k e then some v else lookup e rest

unfoldable pub put : ElementModP → ℕ → List (ElementModP × ℕ) → List (ElementModP × ℕ)
put e n [] = (e, n) ∷ []
put e n ((k, v) ∷ rest) = if eq_p k e then (k, n) ∷ rest else (k, v) ∷ put e n rest

-- One round of the loop.
unfoldable pub step : Dlog → Dlog
unfolding put
step s =
    let exp = s.max_exp + 1 in
    let elem = mult_p (of_p (mk_p G) ∷ of_p s.max_elem ∷ []) in
    record { cache = put elem exp s.cache; max_elem = elem; max_exp = exp }

-- while e != __dlog_max_elem, for at most `fuel` rounds.
unfoldable pub loop : ℕ → ElementModP → Dlog → Result ℕ × Dlog
unfolding step lookup
loop zero e s =
    if eq_p e s.max_elem
    then (get_or_key_error (lookup s.max_elem s.cache), s)
    else (raise still_running, s)
loop (suc fuel) e s = elim (eq_p e s.max_elem) [
  | true ↦ (get_or_key_error (lookup s.max_elem s.cache), s)
  | false ↦ loop fuel e (step s)
]

unfoldable pub discrete_log : ℕ → ElementModP → Dlog → Result ℕ × Dlog
unfolding loop
discrete_log fuel e s = elim (lookup e s.cache) [ some n ↦ (Result.ok n, s) | none ↦ loop fuel e s ]
