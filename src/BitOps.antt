-- ===== src/BitOps.antt =====
-- src/bit_ops.c: operations on the bits of a byte. The C operands are promoted to `int`, whose
-- pattern is 32 bits wide, and the result is cast back to `uint8_t`.
pub mod Laws
use smartphone_robot_firmwar.Base.{
  ℕ, ◌+◌, ◌-◌, ◌*◌, ◌^◌, bit_and, bit_or, bit_xor, ◌==◌, if◌then◌else◌, u8,
}

-- `~x` of an `int`.
abbrev pub bit_not : ℕ → ℕ
bit_not x = 2 ^ 32 - 1 - x

-- `!!x`
abbrev pub to_bool : ℕ → ℕ
to_bool x = if x == 0 then 0 else 1

unfoldable pub bit_assign : ℕ → ℕ → ℕ → ℕ
bit_assign bitvector new_value idx =
    u8 (bit_or (bit_and bitvector (bit_not (1 * 2 ^ idx))) (to_bool new_value * 2 ^ idx))

pub bit_set : ℕ → ℕ → ℕ
bit_set bitvector idx = u8 (bit_or bitvector (1 * 2 ^ idx))

pub bit_clear : ℕ → ℕ → ℕ
bit_clear bitvector idx = u8 (bit_and bitvector (bit_not (1 * 2 ^ idx)))

pub bit_flip : ℕ → ℕ → ℕ
bit_flip bitvector idx = u8 (bit_xor bitvector (1 * 2 ^ idx))

pub bit_check : ℕ → ℕ → ℕ
bit_check bitvector idx = to_bool (bit_and bitvector (1 * 2 ^ idx))

-- For `lsb <= msb`, where the shift distances are not negative.
unfoldable pub bitmask_from_x_2_y : ℕ → ℕ → ℕ
bitmask_from_x_2_y lsb msb = u8 ((1 * 2 ^ (msb - lsb + 1) - 1) * 2 ^ lsb)

pub bitmask_set : ℕ → ℕ → ℕ
bitmask_set bitvector mask = u8 (bit_or bitvector mask)

unfoldable pub bitmask_clear : ℕ → ℕ → ℕ
bitmask_clear bitvector mask = u8 (bit_and bitvector (bit_not mask))

pub bitmask_flip : ℕ → ℕ → ℕ
bitmask_flip bitvector mask = u8 (bit_xor bitvector mask)

pub bitmask_check_all : ℕ → ℕ → ℕ
bitmask_check_all bitvector mask = if bit_and (bit_not bitvector) mask == 0 then 1 else 0

pub bitmask_check_any : ℕ → ℕ → ℕ
bitmask_check_any bitvector mask = u8 (bit_and bitvector mask)

unfoldable pub bit_set_range : ℕ → ℕ → ℕ → ℕ → ℕ
bit_set_range bitvector lsb msb new_val =
    let mask = bitmask_from_x_2_y lsb msb in
    let cleared = bitmask_clear bitvector mask in
    u8 (bit_or cleared (bit_and (new_val * 2 ^ lsb) mask))
