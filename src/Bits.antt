-- ===== src/Bits.antt =====
-- The binary digits of a number, and what `&`, `|`, `^`, `<<` and `~` do to each of them.
pub mod Step
use Step.{bit_or_step, bit_and_step, bit_xor_step, differ_digits}
use smartphone_robot_firmwar.Base.{
  ℕ, zero, suc, ◌+◌, ◌-◌, ◌*◌, ◌/◌, ◌%◌, ◌^◌, ◌≤◌, ◌<◌, bit_and, bit_or, bit_xor, min, max, ◌≡◌,
  refl, ap, Bool, true, false, ◌&&◌, ◌||◌, not, ◌==◌, ltb, leb, if◌then◌else◌, arith, ◌∙◌,
}
use Prim.Native.Nat.{bit_and-bitwise}
use native.Mathlib.Nat.{
  pow-suc, one-le-pow, div-add-mod, div-div-eq-div-mul, mul-one, sub-zero, mod-lt,
}

-- Bit `i` of `a`, as `(a >> i) & 1`.
unfoldable pub testbit : ℕ → ℕ → Bool
testbit a zero = a % 2 == 1
testbit a (suc i) = testbit (a / 2) i

pub testbit-bit_or : (a b i : ℕ) → testbit (bit_or a b) i ≡ (testbit a i || testbit b i)
unfolding testbit
testbit-bit_or a b zero = ground (arith, bit_or_step a b)
testbit-bit_or a b (suc i) =
    ap (λ n. testbit n i) (omega (arith, bit_or_step a b)) ∙ testbit-bit_or (a / 2) (b / 2) i

pub testbit-bit_and : (a b i : ℕ) → testbit (bit_and a b) i ≡ (testbit a i && testbit b i)
unfolding testbit
testbit-bit_and a b zero = ground (arith, bit_and_step a b)
testbit-bit_and a b (suc i) =
    ap (λ n. testbit n i) (omega (arith, bit_and_step a b)) ∙ testbit-bit_and (a / 2) (b / 2) i

pub testbit-bit_xor :
    (a b i : ℕ) → testbit (bit_xor a b) i ≡ (if testbit a i then not (testbit b i) else testbit b i)
unfolding testbit
testbit-bit_xor a b zero =
    ground (arith, bit_xor_step a b, differ_digits (a % 2) (b % 2) (omega arith) (omega arith))
testbit-bit_xor a b (suc i) =
    ap (λ n. testbit n i)
      (omega (arith, bit_xor_step a b, differ_digits (a % 2) (b % 2) (omega arith) (omega arith)))
    ∙ testbit-bit_xor (a / 2) (b / 2) i

pub testbit-zero : (i : ℕ) → testbit 0 i ≡ false
unfolding testbit
testbit-zero zero = refl
testbit-zero (suc i) = testbit-zero i

-- Two numbers of `n` bits with the same bits are the same number.
pub testbit-ext :
    (n a b : ℕ) → a < 2 ^ n → b < 2 ^ n → ((i : ℕ) → i < n → testbit a i ≡ testbit b i) → a ≡ b
unfolding testbit
testbit-ext zero a b ha hb h = omega arith
testbit-ext (suc n) a b ha hb h = ground (
  arith,
  pow-suc 2 n,
  h 0 (omega arith),
  testbit-ext n (a / 2) (b / 2) (omega (arith, pow-suc 2 n)) (omega (arith, pow-suc 2 n))
      (λ i hi. h (suc i) (omega arith)),
)

-- `~` on `k` bits.
pub testbit-complement :
    (k a i : ℕ) → a < 2 ^ k → i < k → testbit (2 ^ k - 1 - a) i ≡ not (testbit a i)
unfolding testbit
testbit-complement zero a i ha hi = absurd (omega arith)
testbit-complement (suc k) a zero ha hi = ground (arith, pow-suc 2 k)
testbit-complement (suc k) a (suc i) ha hi =
    ap (λ n. testbit n i) (omega (arith, pow-suc 2 k))
    ∙ testbit-complement k (a / 2) i (omega (arith, pow-suc 2 k)) (omega arith)

bit_and-zero_below : (n a : ℕ) → a ≤ n → bit_and a 0 ≡ 0
bit_and-zero_below n zero h = refl
bit_and-zero_below zero (suc a) h = absurd (omega arith)
bit_and-zero_below (suc n) (suc a) h =
    omega (arith, bit_and_step (suc a) 0, bit_and-zero_below n (suc a / 2) (omega arith))

pub bit_and-zero : (a : ℕ) → bit_and a 0 ≡ 0
bit_and-zero a = bit_and-zero_below a a (omega arith)

mod-one : (a : ℕ) → a % 1 ≡ 0
mod-one a = omega arith

mod_double : (a m : ℕ) → 1 ≤ m → a % (2 * m) ≡ a / 2 % m * 2 + a % 2
mod_double a m h = omega (
  arith,
  div-add-mod a (2 * m),
  div-add-mod (a / 2) m,
  ap (λ (t : ℕ). 2 * m * t) (div-div-eq-div-mul a 2 m),
)

mod-two-pow-suc : (a k : ℕ) → a % 2 ^ suc k ≡ a / 2 % 2 ^ k * 2 + a % 2
mod-two-pow-suc a k =
    ap (λ (t : ℕ). a % t) (omega (arith, pow-suc 2 k))
    ∙ mod_double a (2 ^ k) (one-le-pow k 2 (omega arith))

zero-bit_and : (b : ℕ) → bit_and 0 b ≡ 0
zero-bit_and b = bit_and-bitwise 0 b

bit_and-le_below : (n a b : ℕ) → a ≤ n → bit_and a b ≤ b
bit_and-le_below n zero b h = omega (arith, zero-bit_and b)
bit_and-le_below zero (suc a) b h = absurd (omega arith)
bit_and-le_below (suc n) (suc a) b h =
    omega (arith, bit_and_step (suc a) b, bit_and-le_below n (suc a / 2) (b / 2) (omega arith))

pub bit_and-le : (a b : ℕ) → bit_and a b ≤ b
bit_and-le a b = bit_and-le_below a a b (omega arith)

-- `a << k`
pub testbit-shl : (a k i : ℕ) → testbit (a * 2 ^ k) i ≡ (leb k i && testbit a (i - k))
unfolding testbit
testbit-shl a zero i = rw mul-one (ground (arith, sub-zero i))
testbit-shl a (suc k) zero = ground (arith, ap (λ (t : ℕ). a * t) (pow-suc 2 k))
testbit-shl a (suc k) (suc i) =
    ap (λ n. testbit n i) (omega (arith, ap (λ (t : ℕ). a * t) (pow-suc 2 k)))
    ∙ testbit-shl a k i
    ∙ ground arith

-- The cast to `k` bits.
pub testbit-mod : (k a i : ℕ) → testbit (a % 2 ^ k) i ≡ (ltb i k && testbit a i)
unfolding testbit
testbit-mod zero a i = rw (mod-one a, testbit-zero i) (ground arith)
testbit-mod (suc k) a zero = ground (arith, mod-two-pow-suc a k)
testbit-mod (suc k) a (suc i) =
    ap (λ n. testbit n i) (omega (arith, mod-two-pow-suc a k))
    ∙ testbit-mod k (a / 2) i
    ∙ ground arith

-- The `k` low bits.
pub testbit-ones : (k i : ℕ) → testbit (2 ^ k - 1) i ≡ ltb i k
unfolding testbit
testbit-ones zero i = testbit-zero i ∙ ground arith
testbit-ones (suc k) zero = ground (arith, pow-suc 2 k, one-le-pow k 2)
testbit-ones (suc k) (suc i) =
    ap (λ n. testbit n i) (omega (arith, pow-suc 2 k, one-le-pow k 2))
    ∙ testbit-ones k i
    ∙ ground arith

pub testbit-one : (i : ℕ) → testbit 1 i ≡ (i == 0)
unfolding testbit
testbit-one zero = refl
testbit-one (suc i) = testbit-zero i ∙ ground arith

-- `a & (1 << i)` is zero exactly where bit `i` is.
pub bit_and-single : (a i : ℕ) → (bit_and a (2 ^ i) == 0) ≡ not (testbit a i)
unfolding testbit
bit_and-single a zero = ground (arith, bit_and_step a 1, bit_and-zero (a / 2))
bit_and-single a (suc i) =
    ground (arith, bit_and_step a (2 ^ suc i), pow-suc 2 i, bit_and-single (a / 2) i)

-- A mask of `k` ones keeps the `k` low bits.
pub bit_and-ones : (a k : ℕ) → bit_and a (2 ^ k - 1) ≡ a % 2 ^ k
bit_and-ones a k =
    testbit-ext k (bit_and a (2 ^ k - 1)) (a % 2 ^ k)
      (omega (arith, bit_and-le a (2 ^ k - 1), one-le-pow k 2 (omega arith)))
      (mod-lt a (one-le-pow k 2 (omega arith)))
      (λ i hi. ground (arith, testbit-bit_and a (2 ^ k - 1) i, testbit-ones k i, testbit-mod k a i))

bit_or-zero_below : (n a : ℕ) → a ≤ n → bit_or a 0 ≡ a
bit_or-zero_below n zero h = refl
bit_or-zero_below zero (suc a) h = absurd (omega arith)
bit_or-zero_below (suc n) (suc a) h =
    omega (arith, bit_or_step (suc a) 0, bit_or-zero_below n (suc a / 2) (omega arith))

-- A number above `k` bits joined with one of `k` bits is their sum.
pub bit_or-high_low :
    (k high low : ℕ) → low < 2 ^ k → bit_or (high * 2 ^ k) low ≡ high * 2 ^ k + low
bit_or-high_low zero high low h =
    let none_left : low ≡ 0 = omega arith in
    rw (none_left, mul-one) (bit_or-zero_below high high (omega arith) ∙ omega arith)
bit_or-high_low (suc k) high low h = omega (
  arith,
  bit_or_step (high * 2 ^ suc k) low,
  ap (λ (t : ℕ). high * t) (pow-suc 2 k),
  ap (λ (t : ℕ). bit_or t (low / 2)) halved,
  bit_or-high_low k high (low / 2) (omega (arith, pow-suc 2 k)),
)
  where
    halved : high * 2 ^ suc k / 2 ≡ high * 2 ^ k
    halved = omega (arith, ap (λ (t : ℕ). high * t) (pow-suc 2 k))
