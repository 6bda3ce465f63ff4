-- ===== src/Gauge/DataFlash.antt =====
-- src/bq27742_g1.c: blocks of the gauge's data flash, guarded by a checksum.
use smartphone_robot_firmwar.Base.{
  ℕ, ◌+◌, ◌-◌, Bool, true, false, List, [], ◌∷◌, ◌==◌, not, get_or, take, if◌then◌else◌, u8,
}
use smartphone_robot_firmwar.Board.Sdk.{Event, i2c0, Arg}
use smartphone_robot_firmwar.Board.{Hardware, M, pure, ◌>>=◌, ◌>>◌, call, rp2040_log}
use smartphone_robot_firmwar.Board.I2cRetry.{i2c_write_error_handling}
use smartphone_robot_firmwar.Gauge.Transfer.{
  bq27742_g1_addr, bq27742_g1_write_byte, bq27742_g1_read_bytes,
}

abbrev pub df_block_len : ℕ
df_block_len = 32

-- `sum += block_data[i]` in a `uint8_t`.
unfoldable pub sum_bytes : ℕ → List ℕ → ℕ
sum_bytes sum [] = sum
sum_bytes sum (b ∷ bs) = sum_bytes (u8 (sum + b)) bs

unfoldable pub bq27742_g1_data_flash_checksum : List ℕ → ℕ
bq27742_g1_data_flash_checksum block_data = 0xff - sum_bytes 0 (take df_block_len block_data)

module _ (hw : Hardware) where
  -- Selects a block for access.
  unfoldable pub select_block : ℕ → ℕ → M (Unit {0})
  select_block subclass block = do
    bq27742_g1_write_byte hw 0x61 0x00
    bq27742_g1_write_byte hw 0x3e subclass
    bq27742_g1_write_byte hw 0x3f block
    call (Event.sleep_ms 1)

  -- Returns the result with what is left in `block_data`.
  unfoldable pub bq27742_g1_read_data_flash_block : ℕ → ℕ → M (Bool × List ℕ)
  bq27742_g1_read_data_flash_block subclass block = do
    select_block subclass block
    block_data ← bq27742_g1_read_bytes hw 0x40 df_block_len
    answer ← bq27742_g1_read_bytes hw 0x60 1
    let checksum = get_or answer 0 0
    let calculated_checksum = bq27742_g1_data_flash_checksum block_data
    if not (checksum == calculated_checksum)
        then (do
          rp2040_log hw
              "ERROR: BQ27742-G1 data flash checksum mismatch read=0x%02x calculated=0x%02x\n"
              (Arg.num checksum ∷ Arg.num calculated_checksum ∷ [])
          pure (false, block_data))
        else pure (true, block_data)

  unfoldable pub bq27742_g1_write_data_flash_block : ℕ → ℕ → List ℕ → M (Unit {0})
  bq27742_g1_write_data_flash_block subclass block block_data = do
    select_block subclass block
    i2c_write_error_handling hw i2c0 bq27742_g1_addr (0x40 ∷ take df_block_len block_data) false
    bq27742_g1_write_byte hw 0x60 (bq27742_g1_data_flash_checksum block_data)
