-- ===== src/Dlog/Laws.antt =====
-- The cache of dlog.py holds powers of G, and discrete_log finds an exponent whenever there is one.
use electionguard_python.Prelude.{
  ℕ, zero, suc, ◌+◌, ◌%◌, ◌^◌, ◌≤◌, ◌<◌, ◌≡◌, ◌≢◌, refl, sym, ap, ◌∙◌, inl, inr, true, false, none,
  some, List, [], ◌∷◌, arith, Bool-cases, Option-cases, dec_lt, leb, if◌then◌else◌,
}
use native.Mathlib.Nat.{pow-zero, pow-suc, mul_comm}
use electionguard_python.Prelude.Result.{Result, ok, get_or_key_error}
use electionguard_python.Modular.{mod-mul_right}
use electionguard_python.Group.Constants.{P, G}
use electionguard_python.Group.Residues.{one-mod-P, mk_p-injective}
use electionguard_python.Group.Elements.{eq_p→eq, eq_p_self, mult_p-pp}
use electionguard_python.Group.{ElementModP, of_p, mk_p, one_mod_p, eq_p, mult_p}
use electionguard_python.Dlog.{Dlog, initial, lookup, put, step, loop, discrete_log}

-- The element G to the n.
abbrev pub power : ℕ → ElementModP
power n = mk_p (G ^ n % P)

pub record IsValid (s : Dlog) : Type 0 where
  -- The largest exponent so far goes with the largest element.
  pub largest : s.max_elem ≡ power s.max_exp
  -- What the cache holds for an element is an exponent of it, up to the largest.
  pub sound :
      (e : ElementModP) (n : ℕ) → lookup e s.cache ≡ some n → (e ≡ power n) × (n ≤ s.max_exp)
  -- The cache holds an exponent for each power so far.
  pub complete : (n : ℕ) → n ≤ s.max_exp → lookup (power n) s.cache ≢ none

power-zero : one_mod_p ≡ power 0
power-zero = ap mk_p (sym (ap (λ t. t % P) (pow-zero G) ∙ one-mod-P))

power-suc : (n : ℕ) → mult_p (of_p (mk_p G) ∷ of_p (power n) ∷ []) ≡ power (n + 1)
power-suc n =
    mult_p-pp G (G ^ n % P)
    ∙ ap mk_p (
        mod-mul_right G (G ^ n) P
        ∙ ap (λ t. t % P) (mul_comm G (G ^ n) ∙ sym (pow-suc G n) ∙ ap (λ t. G ^ t) (omega arith)))

lookup-put :
    (e f : ElementModP) (n : ℕ) (c : List (ElementModP × ℕ))
    → lookup f (put e n c) ≡ (if eq_p e f then some n else lookup f c)
unfolding lookup put
lookup-put e f n [] = refl
lookup-put e f n ((k, v) ∷ c) =
    ground
      (arith, lookup-put e f n c, eq_p→eq k e, eq_p→eq k f, eq_p→eq e f, eq_p_self e, eq_p_self f)

pub initial-IsValid : IsValid initial
unfolding initial lookup
initial-IsValid = record {
  largest = power-zero;
  sound = λ e n h. ground (arith, eq_p→eq one_mod_p e, power-zero);
  complete = λ n h.
      let z : n ≡ 0 = omega (arith, h) in rw (z, ← power-zero, eq_p_self one_mod_p) (λ e. cc);
}

module _ (s : Dlog) (v : IsValid s) where
  next : ℕ
  next = s.max_exp + 1

  next_elem : ElementModP
  next_elem = mult_p (of_p (mk_p G) ∷ of_p s.max_elem ∷ [])

  next_elem_lem : next_elem ≡ power next
  unfolding next next_elem
  next_elem_lem = ap (λ x. mult_p (of_p (mk_p G) ∷ of_p x ∷ [])) v.largest ∙ power-suc s.max_exp

  next_sound :
      (e : ElementModP) (n : ℕ)
      → lookup e (put next_elem next s.cache) ≡ some n
      → (e ≡ power n) × (n ≤ s.max_exp + 1)
  unfolding next
  next_sound e n h = ground (
    arith,
    sym (lookup-put next_elem e next s.cache) ∙ h,
    next_elem_lem,
    eq_p→eq next_elem e,
    v.sound e n,
  )

  next_complete : (n : ℕ) → n ≤ s.max_exp + 1 → lookup (power n) (put next_elem next s.cache) ≢ none
  next_complete n h e = elim (dec_lt s.max_exp n) [
    | yes new ↦ ground (
      arith,
      sym (lookup-put next_elem (power n) next s.cache) ∙ e,
      ap (λ x. eq_p x (power n)) (at_n new),
      eq_p_self (power n),
    )
    | no old ↦ ground (arith, sym (lookup-put next_elem (power n) next s.cache) ∙ e, v.complete n)
  ]
    where
      at_n : s.max_exp < n → next_elem ≡ power n
      at_n new = let same : next ≡ n = unfold next in omega arith in next_elem_lem ∙ ap power same

  pub step-IsValid : IsValid (step s)
  unfolding step next next_elem
  step-IsValid = record { largest = next_elem_lem; sound = next_sound; complete = next_complete }

  -- What the loop returns when it stops is there, and is an exponent of the largest element.
  found : (n : ℕ) × (lookup s.max_elem s.cache ≡ some n) × (s.max_elem ≡ power n) × (n ≤ s.max_exp)
  found = elim (Option-cases (lookup s.max_elem s.cache)) [
    | inl e ↦
        absurd (v.complete s.max_exp (omega arith) (ap (λ x. lookup x s.cache) (sym v.largest) ∙ e))
    | inr (n, e) ↦ (n, e, (v.sound s.max_elem n e).0, (v.sound s.max_elem n e).1)
  ]

-- The result of the loop that looks for the exponent m, in a state whose powers go up to `top`.
record Found (m top : ℕ) (r : Result ℕ × Dlog) : Type 0 where
  n : ℕ
  result : r.0 ≡ ok n
  exponent : power m ≡ power n
  below : n ≤ r.1.max_exp
  valid : IsValid r.1
  bounded : r.1.max_exp ≤ top

answer :
    (m top : ℕ) (s : Dlog)
    → IsValid s
    → s.max_exp ≤ top
    → eq_p (power m) s.max_elem ≡ true
    → Found m top (get_or_key_error (lookup s.max_elem s.cache), s)
answer m top s v h same =
    let (n, e, here, le) = found s v in
    record {
      n = n;
      result = ap get_or_key_error e;
      exponent = eq_p→eq (power m) s.max_elem same ∙ here;
      below = le;
      valid = v;
      bounded = h;
    }

-- Where the loop goes on, the largest exponent has not reached m.
not_yet :
    (m : ℕ) (s : Dlog)
    → IsValid s
    → s.max_exp ≤ m
    → eq_p (power m) s.max_elem ≡ false
    → s.max_exp + 1 ≤ m
not_yet m s v h other = elim (dec_lt s.max_exp m) [
  | yes below ↦ omega arith
  | no above ↦
      let same : s.max_exp ≡ m = omega arith in
      let there : power m ≡ s.max_elem = ap power (sym same) ∙ sym v.largest in
      absurd (cc (sym other ∙ ap (λ x. eq_p x s.max_elem) there ∙ eq_p_self s.max_elem))
]

-- The loop stops at m, or at a smaller exponent of the same element.
loop-Found :
    (fuel m : ℕ) (s : Dlog)
    → IsValid s
    → s.max_exp ≤ m
    → m ≤ s.max_exp + fuel
    → Found m m (loop fuel (power m) s)
unfolding loop
loop-Found zero m s v h k = elim (Bool-cases (eq_p (power m) s.max_elem)) [
  | inl same ↦ rw same (answer m m s v h same)
  | inr other ↦ absurd (omega (arith, not_yet m s v h other))
]
loop-Found (suc fuel) m s v h k = elim (Bool-cases (eq_p (power m) s.max_elem)) [
  | inl same ↦ rw (same, loop) (answer m m s v h same)
  | inr other ↦
      rw (other, loop)
        (loop-Found fuel m (step s) (step-IsValid s v) (not_yet m s v h other) (omega arith))
]

abbrev pub Distinct : ℕ → Type 0
Distinct bound = (i j : ℕ) → i < bound → j < bound → G ^ i % P ≡ G ^ j % P → i ≡ j

abbrev pub larger : ℕ → ℕ → ℕ
larger a b = if leb a b then b else a

-- From any valid state of the cache, and with fuel for the rounds up to m, discrete_log of G to the
-- m is m, where the powers of G below some bound on m and on the largest exponent so far are
-- distinct. The cache stays valid, with no larger exponent than before or m.
pub discrete_log-power :
    (bound fuel m : ℕ) (s : Dlog)
    → IsValid s
    → Distinct bound
    → s.max_exp < bound
    → m < bound
    → m ≤ s.max_exp + fuel
    → ((discrete_log fuel (power m) s).0 ≡ ok m)
      × IsValid (discrete_log fuel (power m) s).1
      × ((discrete_log fuel (power m) s).1.max_exp ≤ larger s.max_exp m)
unfolding discrete_log
discrete_log-power bound fuel m s v d hs hm k = elim (Option-cases (lookup (power m) s.cache)) [
  | inr (n, e) ↦
      let same : n ≡ m =
        d n m (omega (arith, (v.sound (power m) n e).1)) hm
          (sym (mk_p-injective (v.sound (power m) n e).0)) in
      rw (e, discrete_log) (ap ok same, v, ground arith)
  | inl e ↦ rw (e, discrete_log) (looked (loop-Found fuel m s v (smaller e) k))
]
  where
    smaller : lookup (power m) s.cache ≡ none → s.max_exp ≤ m
    smaller e = elim (dec_lt m s.max_exp) [
      | yes below ↦ absurd (v.complete m (omega arith) e)
      | no above ↦ omega arith
    ]

    looked :
        {r : Result ℕ × Dlog}
        → Found m m r
        → (r.0 ≡ ok m) × IsValid r.1 × (r.1.max_exp ≤ larger s.max_exp m)
    looked f =
        let same : f.n ≡ m =
          d f.n m (omega (arith, f.below, f.bounded)) hm (sym (mk_p-injective f.exponent)) in
        (f.result ∙ ap ok same, f.valid, ground (arith, f.bounded))
