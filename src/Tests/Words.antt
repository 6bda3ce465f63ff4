-- ===== src/Tests/Words.antt =====
-- The bit operations and the log at concrete values.
use smartphone_robot_firmwar.Base.{
  ℕ, ◌+◌, ◌-◌, List, [], ◌∷◌, ◌++◌, true, false, ◌&&◌, not, leb, ◌==◌, if◌then◌else◌, ◌≡◌, ◌↔◌,
  arith, map, drop, length, u16,
}
use mathlib.Core.List.{flatten}
use smartphone_robot_firmwar.Bits.{testbit}
use smartphone_robot_firmwar.BitOps.{bit_assign, bit_set, bit_clear, bit_flip, bit_set_range}
use smartphone_robot_firmwar.BitOps.Laws.{bit_writes, testbit-bit_set_range}
use smartphone_robot_firmwar.Log.{rp2040_log_flush, rp2040_get_byte_count, log_buffer_line_count}
use smartphone_robot_firmwar.Log.Lines.{IsValid, truncated, boot-IsValid}
use smartphone_robot_firmwar.Log.Order.{contents}
use smartphone_robot_firmwar.Log.Sequence.{rp2040_log_all, flush-rp2040_log_all}
use smartphone_robot_firmwar.Log.Count.{unused, rp2040_get_byte_count_lem}
use smartphone_robot_firmwar.Tests.Scenario.{fresh}

testbit-bit_set_range_example :
    testbit (bit_set_range 0x89 0 5 0x3b) 3
    ≡ (if leb 0 3 && leb 3 5 then testbit 0x3b (3 - 0) else testbit 0x89 3)
testbit-bit_set_range_example = testbit-bit_set_range 0x89 0 5 0x3b 3 (omega arith) (omega arith)

abbrev hello : List ℕ
hello = 104 ∷ 105 ∷ []

flush-rp2040_log_all_example :
    (rp2040_log_flush (rp2040_log_all (hello ∷ []) fresh) ≡ (
      flatten (drop 1 (contents fresh ++ map truncated (hello ∷ []))),
      rp2040_log_all (hello ∷ []) fresh,
    ))
    × (length (drop 1 (contents fresh ++ map truncated (hello ∷ []))) ≡ log_buffer_line_count)
    × IsValid (rp2040_log_all (hello ∷ []) fresh)
flush-rp2040_log_all_example =
    flush-rp2040_log_all (hello ∷ []) fresh ((omega arith, (omega arith, tt)), tt) boot-IsValid

rp2040_get_byte_count_lem_example :
    (u16 (rp2040_get_byte_count fresh + unused fresh.log_array_line_size)
      ≡ u16 (length (rp2040_log_flush fresh).0))
    × ((rp2040_get_byte_count fresh ≡ u16 (length (rp2040_log_flush fresh).0))
        ↔ (unused fresh.log_array_line_size ≡ 0))
rp2040_get_byte_count_lem_example = rp2040_get_byte_count_lem fresh boot-IsValid

bit_writes_example :
    (testbit (bit_set 0x40 2) 2 ≡ (if 2 == 2 then true else testbit 0x40 2))
    × (testbit (bit_clear 0x40 2) 2 ≡ (if 2 == 2 then false else testbit 0x40 2))
    × (testbit (bit_flip 0x40 2) 2 ≡ (if 2 == 2 then not (testbit 0x40 2) else testbit 0x40 2))
    × (testbit (bit_assign 0x40 5 2) 2 ≡ (if 2 == 2 then not (5 == 0) else testbit 0x40 2))
bit_writes_example = bit_writes 0x40 5 2 2 (omega arith) (omega arith)
