-- ===== src/Group/Equations.antt =====
-- The equations between powers that the verifiers of schnorr.py and chaum_pedersen.py test.
use native.Mathlib.Nat.{mul_comm, mod-mod, pow-zero}
use electionguard_python.Prelude.{ℕ, ◌+◌, ◌-◌, ◌*◌, ◌%◌, ◌^◌, ◌≤◌, ◌≡◌, sym, ap, ◌∙◌, arith}
use electionguard_python.Modular.{mod-mul_cong, mod-mul_right, mod-pow, pow_mul, pow_add, mul_pow}
use electionguard_python.Group.Constants.{P, Q, G}
use electionguard_python.Group.Residues.{one-mod-P, IsResidue, residue-pow_cong}

mod-mod_mul : (a b m : ℕ) → (a % m * (b % m)) % m ≡ (a * b) % m
mod-mod_mul a b m = mod-mul_cong _ _ _ _ m (mod-mod a m) (mod-mod b m)

-- The response to a challenge opens the commitment times the challenged power.
pub open_response :
    (n u c s : ℕ)
    → IsResidue n
    → n ^ ((u + c * s) % Q) % P ≡ (n ^ u % P * ((n ^ s % P) ^ c % P)) % P
open_response n u c s r =
    residue-pow_cong n ((u + c * s) % Q) (u + c * s) r (mod-mod (u + c * s) Q)
    ∙ ap (λ t. t % P)
        (pow_add n u (c * s) ∙ ap (λ t. n ^ u * t) (ap (λ t. n ^ t) (mul_comm c s) ∙ pow_mul n s c))
    ∙ sym (mod-mod_mul (n ^ u) ((n ^ s) ^ c) P)
    ∙ ap (λ t. (n ^ u % P * t) % P) (sym (mod-pow (n ^ s) c P))

-- The same where the secret is the left factor.
pub open_response_left :
    (n u s c : ℕ)
    → IsResidue n
    → n ^ ((u + s * c) % Q) % P ≡ (n ^ u % P * ((n ^ s % P) ^ c % P)) % P
open_response_left n u s c r =
    ap (λ t. n ^ ((u + t) % Q) % P) (mul_comm s c) ∙ open_response n u c s r

-- A power to c and the power to Q - c cancel.
cancel_powers : (b c : ℕ) → IsResidue b → c ≤ Q → (b ^ (Q - c) * b ^ c) % P ≡ 1
cancel_powers b c r h =
    ap (λ t. t % P) (sym (pow_add b (Q - c) c) ∙ ap (λ t. b ^ t) (omega arith))
    ∙ r.order
    ∙ one-mod-P

-- A simulated commitment: what was divided out by a power to Q - c comes back with the power to c.
pub open_simulated :
    (a b c : ℕ) → IsResidue b → c ≤ Q → ((a * (b ^ (Q - c) % P)) % P * (b ^ c % P)) % P ≡ a % P
open_simulated a b c r h =
    mod-mul_cong _ _ _ _ P (mod-mod _ P ∙ mod-mul_right a (b ^ (Q - c)) P) (mod-mod (b ^ c) P)
    ∙ ap (λ t. t % P) (omega arith)
    ∙ sym (mod-mul_right a (b ^ (Q - c) * b ^ c) P)
    ∙ ap (λ t. (a * t) % P) (cancel_powers b c r h)
    ∙ ap (λ t. t % P) (omega arith)

-- The same for an encryption of m: its second part to the challenge.
pub open_encryption :
    (m u c s k : ℕ)
    → IsResidue k
    → (G ^ (c * m) % P * (k ^ ((u + c * s) % Q) % P)) % P
      ≡ (k ^ u % P * ((G ^ m % P * (k ^ s % P) % P) ^ c % P)) % P
open_encryption m u c s k r =
    ap (λ t. (G ^ (c * m) % P * t) % P) (open_response k u c s r)
    ∙ mod-mul_right (G ^ (c * m) % P) (k ^ u % P * (B ^ c % P)) P
    ∙ mod-mul_cong _ _ _ _ P encoded (mod-mul_right (k ^ u % P) (B ^ c) P)
    ∙ ap (λ t. t % P) (omega arith)
    ∙ sym (mod-mul_right (k ^ u % P) (A ^ c * B ^ c) P)
    ∙ ap (λ t. (k ^ u % P * t) % P)
        (ap (λ t. t % P) (sym (mul_pow A B c)) ∙ sym (mod-pow (A * B) c P))
  where
    A : ℕ
    A = G ^ m % P

    B : ℕ
    B = k ^ s % P

    encoded : G ^ (c * m) % P % P ≡ A ^ c % P
    encoded =
        mod-mod (G ^ (c * m)) P
        ∙ ap (λ t. t % P) (ap (λ t. G ^ t) (mul_comm c m) ∙ pow_mul G m c)
        ∙ sym (mod-pow (G ^ m) c P)

-- The second part of an encryption of zero is the power of the key alone.
pub zero_encryption : (s k : ℕ) → (G ^ 0 % P * (k ^ s % P)) % P ≡ k ^ s % P
zero_encryption s k =
    ap (λ t. (t * (k ^ s % P)) % P) (ap (λ t. t % P) (pow-zero G) ∙ one-mod-P)
    ∙ ap (λ t. t % P) (omega arith)
    ∙ mod-mod (k ^ s) P
