-- ===== src/BitOps/Laws.antt =====
-- What the operations of src/bit_ops.c do to each bit of a byte.
use smartphone_robot_firmwar.Base.{
  ℕ, zero, suc, ◌+◌, ◌-◌, ◌*◌, ◌^◌, ◌≤◌, ◌<◌, bit_and, bit_or, bit_xor, ◌≡◌, ◌∙◌, ap, ◌↔◌, true,
  false, ◌&&◌, not, ◌==◌, ltb, leb, if◌then◌else◌, u8, arith,
}
use smartphone_robot_firmwar.Bits.{
  testbit, testbit-bit_or, testbit-bit_and, testbit-bit_xor, testbit-complement, testbit-shl,
  testbit-mod, testbit-ones, testbit-one, testbit-zero, bit_and-single, testbit-ext, bit_and-le,
}
use smartphone_robot_firmwar.BitOps.{
  bit_not, to_bool, bit_assign, bit_set, bit_clear, bit_flip, bit_check, bitmask_from_x_2_y,
  bitmask_clear, bitmask_check_all, bit_set_range,
}
use native.Mathlib.Nat.{one-mul, pow-le-pow_right}

testbit-u8 : (a i : ℕ) → testbit (u8 a) i ≡ (ltb i 8 && testbit a i)
testbit-u8 a i = testbit-mod 8 a i

pub testbit-bit_not : (a i : ℕ) → a < 2 ^ 32 → i < 32 → testbit (bit_not a) i ≡ not (testbit a i)
testbit-bit_not a i h k = testbit-complement 32 a i h k

pub testbit-single : (k i : ℕ) → testbit (1 * 2 ^ k) i ≡ (i == k)
testbit-single k i = ground (arith, testbit-shl 1 k i, testbit-one (i - k))

-- For `lsb <= msb` a bit of the mask is set exactly where it is one of the 8 bits of a byte and lies
-- from `lsb` to `msb`.
pub testbit-bitmask_from_x_2_y :
    (lsb msb i : ℕ)
    → lsb ≤ msb
    → testbit (bitmask_from_x_2_y lsb msb) i ≡ (ltb i 8 && (leb lsb i && leb i msb))
unfolding bitmask_from_x_2_y
testbit-bitmask_from_x_2_y lsb msb i h = ground (
  arith,
  testbit-u8 ((1 * 2 ^ (msb - lsb + 1) - 1) * 2 ^ lsb) i,
  testbit-shl (1 * 2 ^ (msb - lsb + 1) - 1) lsb i,
  testbit-ones (msb - lsb + 1) (i - lsb),
  one-mul (2 ^ (msb - lsb + 1)),
)

single-lt : (k : ℕ) → k < 8 → 1 * 2 ^ k < 256
single-lt k h = omega (arith, pow-le-pow_right {n = 2} (omega arith) (k_le k h))
  where
    k_le : (k : ℕ) → k < 8 → k ≤ 7
    k_le k h = omega arith

-- `bit_check` reads one bit, as 0 or 1.
pub bit_check_lem : (v i : ℕ) → bit_check v i ≡ (if testbit v i then 1 else 0)
unfolding bit_check
bit_check_lem v i = ground (arith, bit_and-single v i, one-mul (2 ^ i))

-- The mask of one bit is a byte, and so fits the 32 bits that `~` ranges over.
testbit-not_single : (k i : ℕ) → k < 8 → i < 8 → testbit (bit_not (1 * 2 ^ k)) i ≡ not (i == k)
testbit-not_single k i hk hi =
    testbit-bit_not (1 * 2 ^ k) i (omega (arith, single-lt k hk)) (omega arith)
    ∙ ap not (testbit-single k i)

testbit-to_bool : (n i : ℕ) → testbit (to_bool n) i ≡ (not (n == 0) && (i == 0))
testbit-to_bool zero i = ground (arith, testbit-zero i)
testbit-to_bool (suc n) i = ground (arith, testbit-one i)

-- Setting, clearing, flipping or assigning one bit of a byte gives that bit its new value and
-- leaves every other bit of the byte.
pub bit_writes :
    (v new i j : ℕ)
    → i < 8
    → j < 8
    → (testbit (bit_set v i) j ≡ (if j == i then true else testbit v j))
      × (testbit (bit_clear v i) j ≡ (if j == i then false else testbit v j))
      × (testbit (bit_flip v i) j ≡ (if j == i then not (testbit v j) else testbit v j))
      × (testbit (bit_assign v new i) j ≡ (if j == i then not (new == 0) else testbit v j))
unfolding bit_set bit_clear bit_flip bit_assign
bit_writes v new i j hi hj = (
  ground (
    arith,
    testbit-u8 (bit_or v (1 * 2 ^ i)) j,
    testbit-bit_or v (1 * 2 ^ i) j,
    testbit-single i j,
  ),
  ground (
    arith,
    testbit-u8 (bit_and v (bit_not (1 * 2 ^ i))) j,
    testbit-bit_and v (bit_not (1 * 2 ^ i)) j,
    testbit-not_single i j hi hj,
  ),
  ground (
    arith,
    testbit-u8 (bit_xor v (1 * 2 ^ i)) j,
    testbit-bit_xor v (1 * 2 ^ i) j,
    testbit-single i j,
  ),
  ground (
    arith,
    testbit-u8 (bit_or (bit_and v (bit_not (1 * 2 ^ i))) (to_bool new * 2 ^ i)) j,
    testbit-bit_or (bit_and v (bit_not (1 * 2 ^ i))) (to_bool new * 2 ^ i) j,
    testbit-bit_and v (bit_not (1 * 2 ^ i)) j,
    testbit-not_single i j hi hj,
    testbit-shl (to_bool new) i j,
    testbit-to_bool new (j - i),
  ),
)

bitmask_from_x_2_y-lt : (lsb msb : ℕ) → bitmask_from_x_2_y lsb msb < 256
unfolding bitmask_from_x_2_y
bitmask_from_x_2_y-lt lsb msb = omega arith

testbit-bitmask_clear :
    (v mask j : ℕ)
    → mask < 256
    → j < 8
    → testbit (bitmask_clear v mask) j ≡ (testbit v j && not (testbit mask j))
unfolding bitmask_clear
testbit-bitmask_clear v mask j hm hj = ground (
  arith,
  testbit-u8 (bit_and v (bit_not mask)) j,
  testbit-bit_and v (bit_not mask) j,
  testbit-bit_not mask j,
)

-- For `lsb <= msb` the field from `lsb` to `msb` becomes the low bits of `new_val`, and the other
-- bits of the byte stay.
pub testbit-bit_set_range :
    (v lsb msb new_val j : ℕ)
    → lsb ≤ msb
    → j < 8
    → testbit (bit_set_range v lsb msb new_val) j
      ≡ (if leb lsb j && leb j msb then testbit new_val (j - lsb) else testbit v j)
unfolding bit_set_range
testbit-bit_set_range v lsb msb new_val j h hj =
    let mask = bitmask_from_x_2_y lsb msb in
    ground (
      arith,
      testbit-u8 (bit_or (bitmask_clear v mask) (bit_and (new_val * 2 ^ lsb) mask)) j,
      testbit-bit_or (bitmask_clear v mask) (bit_and (new_val * 2 ^ lsb) mask) j,
      testbit-bitmask_clear v mask j (bitmask_from_x_2_y-lt lsb msb) hj,
      testbit-bit_and (new_val * 2 ^ lsb) mask j,
      testbit-shl new_val lsb j,
      testbit-bitmask_from_x_2_y lsb msb j h,
    )

-- The bits of the mask that the byte lacks.
abbrev missing : ℕ → ℕ → ℕ
missing v mask = bit_and (bit_not v) mask

testbit-missing :
    (v mask i : ℕ)
    → v < 256
    → i < 8
    → testbit (missing v mask) i ≡ (not (testbit v i) && testbit mask i)
testbit-missing v mask i hv hi =
    ground (arith, testbit-bit_and (bit_not v) mask i, testbit-bit_not v i)

-- `bitmask_check_all` is 1 exactly where every bit of the mask is set in the byte.
pub bitmask_check_all_lem :
    (v mask : ℕ)
    → v < 256
    → mask < 256
    → (bitmask_check_all v mask ≡ 1)
      ↔ ((i : ℕ) → i < 8 → testbit mask i ≡ true → testbit v i ≡ true)
unfolding bitmask_check_all
bitmask_check_all_lem v mask hv hm = (
  λ e i hi hb. ground (
    arith,
    testbit-missing v mask i hv hi,
    ap (λ n. testbit n i) (none_missing e),
    testbit-zero i,
  ),
  λ h. rw (missing_zero h),
)
  where
    none_missing : bitmask_check_all v mask ≡ 1 → missing v mask ≡ 0
    none_missing e = ground arith

    missing_zero :
        ((i : ℕ) → i < 8 → testbit mask i ≡ true → testbit v i ≡ true) → missing v mask ≡ 0
    missing_zero h =
        testbit-ext 8 (missing v mask) 0 (omega (arith, bit_and-le (bit_not v) mask)) (omega arith)
          (λ i hi. ground (arith, testbit-missing v mask i hv hi, testbit-zero i, h i hi))
