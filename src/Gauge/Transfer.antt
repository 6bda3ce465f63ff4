-- ===== src/Gauge/Transfer.antt =====
-- src/bq27742_g1.c: transfers to and from the gauge, and its control subcommands.
use smartphone_robot_firmwar.Base.{
  ℕ, ◌*◌, ◌/◌, ◌^◌, true, false, List, [], ◌∷◌, bit_and, bit_or, get_or, u8, u16,
}
use smartphone_robot_firmwar.Board.Sdk.{i2c0, Arg}
use smartphone_robot_firmwar.Board.{Hardware, M, ◌>>=◌, ◌>>◌, rp2040_log}
use smartphone_robot_firmwar.Board.I2cRetry.{i2c_write_error_handling, i2c_read_error_handling}

abbrev pub bq27742_g1_addr : ℕ
bq27742_g1_addr = 0x55

-- `(buf[1] << 8) | buf[0]`
abbrev pub little_endian : List ℕ → ℕ
little_endian buf = u16 (bit_or (get_or buf 1 0 * 2 ^ 8) (get_or buf 0 0))

module _ (hw : Hardware) where
  unfoldable pub bq27742_g1_write_byte : ℕ → ℕ → M (Unit {0})
  bq27742_g1_write_byte command value =
      i2c_write_error_handling hw i2c0 bq27742_g1_addr (command ∷ value ∷ []) false

  unfoldable pub bq27742_g1_read_bytes : ℕ → ℕ → M (List ℕ)
  bq27742_g1_read_bytes command len = do
    i2c_write_error_handling hw i2c0 bq27742_g1_addr (command ∷ []) true
    i2c_read_error_handling hw i2c0 bq27742_g1_addr len false

  -- Sends 4 bytes: the register, the subcommand with its low byte first, and a 0. Returns what is
  -- left in `return_buf`.
  unfoldable pub bq27742_g1_control : ℕ → M (List ℕ)
  bq27742_g1_control subcommand_code = do
    i2c_write_error_handling hw i2c0 bq27742_g1_addr
        (0
          ∷ u8 (bit_and subcommand_code 0x00ff)
          ∷ u8 (bit_and subcommand_code 0xff00 / 2 ^ 8)
          ∷ 0
          ∷ [])
        true
    i2c_write_error_handling hw i2c0 bq27742_g1_addr (0 ∷ []) true
    i2c_read_error_handling hw i2c0 bq27742_g1_addr 2 false

  unfoldable pub bq27742_g1_set_shutdown : M (Unit {0})
  bq27742_g1_set_shutdown = do
    _ ← bq27742_g1_control 0x0013
    rp2040_log hw "Shutting Down bq27742_g1\n" []

  unfoldable pub bq27742_g1_clear_shutdown : M (Unit {0})
  bq27742_g1_clear_shutdown = do
    _ ← bq27742_g1_control 0x0014
    rp2040_log hw "Clearing Shutdown on bq27742_g1\n" []

  unfoldable pub bq27742_g1_fw_version_check : M (Unit {0})
  bq27742_g1_fw_version_check = do
    buf ← bq27742_g1_control 0x0002
    rp2040_log hw "FW Version: 0x%02x%02x\n"
        (Arg.num (get_or buf 1 0) ∷ Arg.num (get_or buf 0 0) ∷ [])

  unfoldable pub bq27742_g1_shutdown : M (Unit {0})
  bq27742_g1_shutdown = bq27742_g1_set_shutdown
