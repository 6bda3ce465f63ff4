-- ===== src/Gauge/HostConfig.antt =====
-- src/bq27742_g1.c: the host interrupt pin (RC2) is set up in the gauge's data flash.
use smartphone_robot_firmwar.Base.{
  ℕ, ◌*◌, ◌/◌, ◌^◌, ◌&&◌, List, [], ◌∷◌, bit_and, bit_or, ◌==◌, not, get_or, set, if◌then◌else◌, u8,
  u16,
}
use smartphone_robot_firmwar.BitOps.{bit_not}
use smartphone_robot_firmwar.Board.Sdk.{Event, Arg}
use smartphone_robot_firmwar.Board.{Hardware, M, pure, ◌>>=◌, ◌>>◌, call, when, rp2040_log}
use smartphone_robot_firmwar.Gauge.Transfer.{bq27742_g1_read_bytes, little_endian}
use smartphone_robot_firmwar.Gauge.DataFlash.{
  bq27742_g1_read_data_flash_block, bq27742_g1_write_data_flash_block,
}

abbrev pub hostipu_mask : ℕ
hostipu_mask = 2 ^ 14

abbrev pub hostipol_mask : ℕ
hostipol_mask = 2 ^ 13

abbrev pub hostie_mask : ℕ
hostie_mask = 2 ^ 12

abbrev pub btp_en_mask : ℕ
btp_en_mask = 2 ^ 0

abbrev pub df_subclass_registers : ℕ
df_subclass_registers = 64

abbrev pub pack_config_c_offset : ℕ
pack_config_c_offset = 3

-- Where the two bytes of PackConfiguration stand in the block.
pub record ByteOrder : Type 0 where
  pub high_index : ℕ
  pub low_index : ℕ

abbrev pub word_at : List ℕ → ByteOrder → ℕ
word_at block o = u16 (bit_or (get_or block o.high_index 0 * 2 ^ 8) (get_or block o.low_index 0))

abbrev pub big : ByteOrder
big = record { high_index = 0; low_index = 1 }

abbrev pub little : ByteOrder
little = record { high_index = 1; low_index = 0 }

-- Little-endian only where that alone agrees with the command read.
unfoldable pub byte_order : ℕ → List ℕ → ByteOrder
byte_order pack_config block =
    if word_at block little == pack_config && not (word_at block big == pack_config)
    then little
    else big

-- `|= HOSTIE`, `&= ~HOSTIPU`, `&= ~HOSTIPOL`, each in a `uint16_t`.
unfoldable pub new_pack_config : ℕ → ℕ
new_pack_config old = u16 (
    bit_and (u16 (bit_and (u16 (bit_or old hostie_mask)) (bit_not hostipu_mask)))
      (bit_not hostipol_mask))

unfoldable pub new_pack_config_c : ℕ → ℕ
new_pack_config_c old = u8 (bit_and old (bit_not btp_en_mask))

-- The block with the new configuration.
unfoldable pub configured : ByteOrder → List ℕ → List ℕ
configured o block =
    let config = new_pack_config (word_at block o) in
    let config_c = new_pack_config_c (get_or block pack_config_c_offset 0) in
    set
      (set (set block o.high_index (u8 (bit_and (config / 2 ^ 8) 0xff))) o.low_index
        (u8 (bit_and config 0xff)))
      pack_config_c_offset config_c

module _ (hw : Hardware) where
  unfoldable pub bq27742_g1_get_pack_configuration : M ℕ
  bq27742_g1_get_pack_configuration = do
    buf ← bq27742_g1_read_bytes hw 0x3a 2
    pure (little_endian buf)

  -- From `sleep_ms(10)` on: the written block is read again and compared.
  unfoldable pub verify_write : ByteOrder → ℕ → ℕ → ℕ → ℕ → M (Unit {0})
  verify_write o old_config config old_c config_c = do
    call (Event.sleep_ms 10)
    (read, verify_block) ← bq27742_g1_read_data_flash_block hw df_subclass_registers 0
    let verify_config = word_at verify_block o
    let verify_c = get_or verify_block pack_config_c_offset 0
    if not read
        then rp2040_log hw "ERROR: BQ27742-G1 could not verify RC2 data flash write\n" []
        else (if not (verify_config == config && verify_c == config_c)
            then (rp2040_log hw
                "ERROR: BQ27742-G1 RC2 data flash write did not verify. PackConfig=0x%04x expected=0x%04x PackConfigC=0x%02x expected=0x%02x\n"
                (Arg.num verify_config ∷ Arg.num config ∷ Arg.num verify_c ∷ Arg.num config_c ∷ []))
            else (rp2040_log hw
                "BQ27742-G1 RC2 host interrupts configured. PackConfiguration 0x%04x -> 0x%04x, PackConfigC 0x%02x -> 0x%02x\n"
                (Arg.num old_config ∷ Arg.num config ∷ Arg.num old_c ∷ Arg.num config_c ∷ [])))

  -- From the choice of the byte order on.
  unfoldable pub configure_block : ℕ → List ℕ → M (Unit {0})
  configure_block pack_config block_data = do
    let o = byte_order pack_config block_data
    when
        (not (word_at block_data little == pack_config)
          && not (word_at block_data big == pack_config))
        (rp2040_log hw
          "BQ27742-G1 PackConfiguration byte order not verified by command read; using TRM order\n"
          [])
    let old_config = word_at block_data o
    let config = new_pack_config old_config
    let old_c = get_or block_data pack_config_c_offset 0
    let config_c = new_pack_config_c old_c
    if old_config == config && old_c == config_c
        then rp2040_log hw "BQ27742-G1 RC2 host interrupts already configured\n" []
        else (do
          bq27742_g1_write_data_flash_block hw df_subclass_registers 0 (configured o block_data)
          verify_write o old_config config old_c config_c)

  unfoldable pub bq27742_g1_configure_host_interrupts : M (Unit {0})
  bq27742_g1_configure_host_interrupts = do
    pack_config ← bq27742_g1_get_pack_configuration
    rp2040_log hw "BQ27742-G1 PackConfiguration before RC2 init: 0x%04x\n"
        (Arg.num pack_config ∷ [])
    (read, block_data) ← bq27742_g1_read_data_flash_block hw df_subclass_registers 0
    if not read
        then rp2040_log hw "ERROR: BQ27742-G1 could not read data flash for RC2 init\n" []
        else configure_block pack_config block_data
