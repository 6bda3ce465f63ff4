-- ===== src/Bits/Step.antt =====
-- How `&`, `|` and `^` treat the lowest digit of their operands, apart from the rest. The library
-- counts down a bound while it walks over the digits; a bound that is large enough drops out.
use Prim.Native.Nat.{digits, bitwise, differ, bit_and-bitwise, bit_or-bitwise, bit_xor-bitwise}
use smartphone_robot_firmwar.Base.{
  ℕ, zero, suc, ◌+◌, ◌*◌, ◌/◌, ◌%◌, ◌≤◌, ◌<◌, bit_and, bit_or, bit_xor, min, max, ltb, ltb→lt,
  Bool-cases, inl, inr, ◌≡◌, refl, ap, ◌∙◌, arith,
}

module _ (rest : ℕ → ℕ) (op : ℕ → ℕ → ℕ) where
  -- One unit more of a bound that is large enough.
  one_more : (bound x y : ℕ) → x ≤ bound → digits rest op (suc bound) x y ≡ digits rest op bound x y
  one_more zero zero y h = refl
  one_more zero (suc x) y h = absurd (omega arith)
  one_more (suc bound) zero y h = refl
  one_more (suc bound) (suc x) y h = rw (one_more bound (suc x / 2) (y / 2) (omega arith))

  any_more :
      (large bound x y : ℕ)
      → x ≤ bound
      → bound ≤ large
      → digits rest op large x y ≡ digits rest op bound x y
  any_more zero bound x y h k = ap (λ n. digits rest op n x y) {x = zero} (omega arith)
  any_more (suc large) bound x y h k = elim (Bool-cases (ltb bound (suc large))) [
    | inl e ↦
        one_more large x y (omega (arith, ltb→lt bound (suc large) e))
        ∙ any_more large bound x y h (omega (arith, ltb→lt bound (suc large) e))
    | inr e ↦ ap (λ n. digits rest op n x y) {x = suc large} (ground arith)
  ]

  lowest_digit :
      (x y : ℕ)
      → bitwise rest op (suc x) y ≡ bitwise rest op (suc x / 2) (y / 2) * 2 + op (suc x % 2) (y % 2)
  lowest_digit x y =
      omega (arith, any_more x (suc x / 2) (suc x / 2) (y / 2) (omega arith) (omega arith))

pub bit_or_step : (x y : ℕ) → bit_or x y ≡ bit_or (x / 2) (y / 2) * 2 + max (x % 2) (y % 2)
bit_or_step zero y = simp bit_or-bitwise (omega arith)
bit_or_step (suc x) y = simp bit_or-bitwise (lowest_digit (λ n. n) max x y)

pub bit_and_step : (x y : ℕ) → bit_and x y ≡ bit_and (x / 2) (y / 2) * 2 + min (x % 2) (y % 2)
bit_and_step zero y = simp bit_and-bitwise (omega arith)
bit_and_step (suc x) y = simp bit_and-bitwise (lowest_digit (λ n. 0) min x y)

pub bit_xor_step : (x y : ℕ) → bit_xor x y ≡ bit_xor (x / 2) (y / 2) * 2 + differ (x % 2) (y % 2)
bit_xor_step zero y = simp bit_xor-bitwise (omega arith)
bit_xor_step (suc x) y = simp bit_xor-bitwise (lowest_digit (λ n. n) differ x y)

-- On digits `differ` is the sum without its carry.
pub differ_digits : (x y : ℕ) → x < 2 → y < 2 → differ x y ≡ (x + y) % 2
differ_digits zero zero p q = refl
differ_digits zero (suc zero) p q = refl
differ_digits (suc zero) zero p q = refl
differ_digits (suc zero) (suc zero) p q = refl
differ_digits (suc (suc x)) y p q = absurd (omega arith)
differ_digits zero (suc (suc y)) p q = absurd (omega arith)
differ_digits (suc zero) (suc (suc y)) p q = absurd (omega arith)
