-- ===== src/Prelude/Modulo.antt =====
-- Products modulo a number.
use Prim.Native.Nat.{ℕ, ◌+◌, ◌*◌, ◌/◌, ◌%◌}
use mathlib.Core.Path.{◌≡◌, sym, ap, ◌∙◌}
use native.Mathlib.Nat.{div-add-mod', add-mul-mod_self_right}
use native.Mathlib.Omega.{arith}

pub mod_mul : (a b m : ℕ) → a % m * b % m ≡ a * b % m
mod_mul a b m =
    sym (add-mul-mod_self_right (a % m * b) (a / m * b) m)
    ∙ ap (λ x. x % m) (distribute (a % m) (a / m))
    ∙ ap (λ x. x * b % m) (div-add-mod' a m)
  where
    distribute : (r q : ℕ) → r * b + q * b * m ≡ (q * m + r) * b
    distribute r q = grind arith
