-- ===== src/Modular.antt =====
-- Residues and powers on the native numbers: what the arithmetic of group.py rests on.
use electionguard_python.Prelude.{
  ℕ, zero, suc, ◌+◌, ◌*◌, ◌/◌, ◌%◌, ◌^◌, ◌<◌, ◌≡◌, refl, sym, ap, ◌∙◌, inl, inr, arith, ◌==◌,
  if◌then◌else◌, Bool-cases, ==→eq,
}
use mathlib.Core.Path.{◌≡⟨◌⟩◌, ◌∎}
use native.Mathlib.Nat.{
  pow-zero, pow-suc, mod-mod, div-add-mod, add-mul-mod_self_left, mul_comm, add-zero,
}

-- A factor may be reduced first.
pub mod-mul_left : (a b m : ℕ) → (a % m * b) % m ≡ (a * b) % m
mod-mul_left a b m = sym (add-mul-mod_self_left (a % m * b) m (a / m * b)) ∙ ap (λ t. t % m) regroup
  where
    regroup : a % m * b + m * (a / m * b) ≡ a * b
    regroup = omega (arith, ap (λ (t : ℕ). t * b) (div-add-mod a m))

pub mod-mul_right : (a b m : ℕ) → (a * (b % m)) % m ≡ (a * b) % m
mod-mul_right a b m = rw mul_comm (mod-mul_left b a m ∙ ap (λ t. t % m) (mul_comm b a))

-- Congruent factors have congruent products.
pub mod-mul_cong : (a a' b b' m : ℕ) → a % m ≡ a' % m → b % m ≡ b' % m → (a * b) % m ≡ (a' * b') % m
mod-mul_cong a a' b b' m h k =
    (a * b) % m
    ≡⟨ sym (mod-mul_left a b m) ⟩ (a % m * b) % m
    ≡⟨ ap (λ t. (t * b) % m) h ⟩ (a' % m * b) % m
    ≡⟨ mod-mul_left a' b m ⟩ (a' * b) % m
    ≡⟨ sym (mod-mul_right a' b m) ⟩ (a' * (b % m)) % m
    ≡⟨ ap (λ t. (a' * t) % m) k ⟩ (a' * (b' % m)) % m
    ≡⟨ mod-mul_right a' b' m ⟩ (a' * b') % m ∎

-- The base of a power may be reduced first.
pub mod-pow : (a e m : ℕ) → (a % m) ^ e % m ≡ a ^ e % m
mod-pow a zero m = rw (pow-zero, pow-zero)
mod-pow a (suc e) m = rw (pow-suc, pow-suc) (mod-mul_cong _ _ _ _ m (mod-pow a e m) (mod-mod a m))

pub pow_add : (b m n : ℕ) → b ^ (m + n) ≡ b ^ m * b ^ n
pow_add b m zero = rw (add-zero, pow-zero) (omega arith)
pow_add b m (suc n) =
    let e : m + suc n ≡ suc (m + n) = omega arith in
    rw (e, pow-suc, pow-suc) (omega (arith, ap (λ (t : ℕ). t * b) (pow_add b m n)))

pub pow_mul : (b m n : ℕ) → b ^ (m * n) ≡ (b ^ m) ^ n
pow_mul b m zero = let e : m * zero ≡ zero = omega arith in rw (e, pow-zero, pow-zero)
pow_mul b m (suc n) =
    let e : m * suc n ≡ m * n + m = omega arith in
    rw (e, pow_add, pow-suc) (ap (λ (t : ℕ). t * b ^ m) (pow_mul b m n))

pub mul_pow : (a b n : ℕ) → (a * b) ^ n ≡ a ^ n * b ^ n
mul_pow a b zero = rw (pow-zero, pow-zero, pow-zero)
mul_pow a b (suc n) =
    rw (pow-suc, pow-suc, pow-suc) (omega (arith, ap (λ (t : ℕ). t * (a * b)) (mul_pow a b n)))

pub one_pow : (n : ℕ) → 1 ^ n ≡ 1
one_pow zero = pow-zero 1
one_pow (suc n) = rw pow-suc (omega (arith, one_pow n))

-- If b has order dividing q modulo m, exponents of b count modulo q.
pub pow-mod_order : (b q m : ℕ) → b ^ q % m ≡ 1 % m → (e : ℕ) → b ^ (e % q) % m ≡ b ^ e % m
pow-mod_order b q m h e = sym (
    b ^ e % m
    ≡⟨ ap (λ t. b ^ t % m) (sym (div-add-mod e q)) ⟩ b ^ (q * (e / q) + e % q) % m
    ≡⟨ ap (λ t. t % m) (pow_add b (q * (e / q)) (e % q)) ⟩ (b ^ (q * (e / q)) * b ^ (e % q)) % m
    ≡⟨ mod-mul_cong _ _ _ _ m turns refl ⟩ (1 * b ^ (e % q)) % m
    ≡⟨ ap (λ t. t % m) (omega arith) ⟩ b ^ (e % q) % m ∎)
  where
    turns : b ^ (q * (e / q)) % m ≡ 1 % m
    turns =
        ap (λ t. t % m) (pow_mul b q (e / q))
        ∙ sym (mod-pow (b ^ q) (e / q) m)
        ∙ ap (λ t. t ^ (e / q) % m) h
        ∙ mod-pow 1 (e / q) m
        ∙ ap (λ t. t % m) (one_pow (e / q))

-- Congruent exponents give congruent powers.
pub pow_cong : (b q m e e' : ℕ) → b ^ q % m ≡ 1 % m → e % q ≡ e' % q → b ^ e % m ≡ b ^ e' % m
pow_cong b q m e e' h k =
    sym (pow-mod_order b q m h e) ∙ ap (λ t. b ^ t % m) k ∙ pow-mod_order b q m h e'

-- A power of an element whose order divides q has an order that divides q.
pub pow-order : (b q m e : ℕ) → b ^ q % m ≡ 1 % m → (b ^ e % m) ^ q % m ≡ 1 % m
pow-order b q m e h =
    mod-pow (b ^ e) q m
    ∙ ap (λ t. t % m) (sym (pow_mul b e q) ∙ ap (λ t. b ^ t) (mul_comm e q) ∙ pow_mul b q e)
    ∙ sym (mod-pow (b ^ q) e m)
    ∙ ap (λ t. t ^ e % m) h
    ∙ mod-pow 1 e m
    ∙ ap (λ t. t % m) (one_pow e)

-- Square and multiply, over the `f` low bits of the exponent: it computes at large numerals.
unfoldable pub square_multiply : ℕ → ℕ → ℕ → ℕ → ℕ
square_multiply zero b e m = 1 % m
square_multiply (suc f) b e m =
    let rest = square_multiply f (b * b % m) (e / 2) m in
    if e % 2 == 0 then rest else (b * rest) % m

-- One round: the square has been raised to half the exponent.
square_step : (b e m : ℕ) → (b * b % m) ^ (e / 2) % m ≡ b ^ (e / 2 + e / 2) % m
square_step b e m =
    mod-pow (b * b) (e / 2) m
    ∙ ap (λ t. t % m) (mul_pow b b (e / 2) ∙ sym (pow_add b (e / 2) (e / 2)))

pub square_multiply_lem : (f b e m : ℕ) → e < 2 ^ f → square_multiply f b e m ≡ b ^ e % m
unfolding square_multiply
square_multiply_lem zero b e m h = let z : e ≡ 0 = omega arith in rw (z, pow-zero)
square_multiply_lem (suc f) b e m h =
    let half : e / 2 < 2 ^ f = omega arith in
    let rest : square_multiply f (b * b % m) (e / 2) m ≡ b ^ (e / 2 + e / 2) % m =
      square_multiply_lem f (b * b % m) (e / 2) m half ∙ square_step b e m in
    elim (Bool-cases (e % 2 == 0)) [
      | inl even ↦
          rw even
            (rest ∙ ap (λ t. b ^ t % m) (omega (arith, ==→eq (e % 2) 0 even, div-add-mod e 2)))
      | inr odd ↦
          let e' : suc (e / 2 + e / 2) ≡ e = ground arith in
          rw odd (
            ap (λ t. (b * t) % m) rest
            ∙ mod-mul_right b (b ^ (e / 2 + e / 2)) m
            ∙ ap (λ t. t % m)
                (mul_comm b (b ^ (e / 2 + e / 2))
                  ∙ sym (pow-suc b (e / 2 + e / 2))
                  ∙ ap (λ t. b ^ t) e'))
    ]
