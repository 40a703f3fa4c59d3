-- ===== src/Prelude/Congruence.antt =====
-- Products and sums modulo a number.
use Prim.Native.Nat.{ℕ, ◌+◌, ◌*◌, ◌/◌, ◌%◌}
use native.Mathlib.Nat.{div-add-mod, mul-add-mod_self_left, add-mod, mul_comm}
use mathlib.Core.Path.{◌≡◌, sym, ap, ap₂, ◌∙◌}
use native.Mathlib.Omega.{arith}

expand : (n q r b : ℕ) → (n * q + r) * b ≡ n * (q * b) + r * b
expand n q r b = grind arith

mul-mod_first : (n a b : ℕ) → a * b % n ≡ a % n * b % n
mul-mod_first n a b =
    ap (λ t. t * b % n) (sym (div-add-mod a n))
    ∙ ap (λ t. t % n) (expand n (a / n) (a % n) b)
    ∙ mul-add-mod_self_left n (a / n * b) (a % n * b)

-- Congruent numbers have congruent products.
pub mod_mul : (n a a' b b' : ℕ) → a % n ≡ a' % n → b % n ≡ b' % n → a * b % n ≡ a' * b' % n
mod_mul n a a' b b' e f =
    mul-mod_first n a b
    ∙ ap (λ t. t * b % n) e
    ∙ sym (mul-mod_first n a' b)
    ∙ ap (λ t. t % n) (mul_comm a' b)
    ∙ mul-mod_first n b a'
    ∙ ap (λ t. t * a' % n) f
    ∙ sym (mul-mod_first n b' a')
    ∙ ap (λ t. t % n) (mul_comm b' a')

pub mod_add : (n a a' b b' : ℕ) → a % n ≡ a' % n → b % n ≡ b' % n → (a + b) % n ≡ (a' + b') % n
mod_add n a a' b b' e f = add-mod a b n ∙ ap₂ (λ s t. (s + t) % n) e f ∙ sym (add-mod a' b' n)
